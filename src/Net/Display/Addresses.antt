-- ===== src/Net/Display/Addresses.antt =====
-- A printed IPv6 address is read as that address.
use tansa.Prelude.{
  ℕ, ◌<◌, ◌+◌, ◌/◌, ◌%◌, ◌≡◌, ◌≢◌, refl, sym, ap, subst, ◌∙◌, Bool, true, false, ◌&&◌, List, [],
  ◌∷◌, ◌++◌, All, All-append, All-front, All-back, inl, inr, Bool-cases, arith, ltb, ltb→lt, ◌==◌,
  ==_iff,
}
use mathlib.Core.List.{append_assoc}
use tansa.Net.{Ipv6Addr, segments, is_zero}
use tansa.Net.Texts.{Lacks}
use tansa.Net.Display.{
  chars, hex, print_tail, decimal, print_ip, print_bytes, print_segments, longest_run, take_first,
  drop_first, is_ipv4_mapped, Span,
}
use tansa.Net.Display.Digits.{decimal-Lacks, hex-Lacks, IsMark}
use tansa.Net.Display.Zeros.{
  IsRun, longest_run-IsRun, zeros, length, length-append, length-zeros, take_first-append,
  drop_first-zeros,
}
use tansa.Net.Display.Reader.{read_ip, read_ip-plain, read_ip-compressed}
use tansa.Net.Display.Mapped.{read_ip-mapped}

-- Each segment has 16 bits.
abbrev pub IsInRange : Ipv6Addr → Type 0
IsInRange a = All (λ s. s < 65536) (segments a)

and_true : (a b : Bool) → (a && b) ≡ true → (a ≡ true) × (b ≡ true)
and_true true b h = (refl, h)
and_true false b h = cc

is_zero-zeros : (l : List ℕ) → is_zero l ≡ true → l ≡ zeros (length l)
is_zero-zeros [] h = refl
is_zero-zeros (s ∷ l) h =
    let w = and_true (s == 0) (is_zero l) h in
    ap (λ s. s ∷ l) ((==_iff s 0).0 w.0) ∙ ap (λ l. 0 ∷ l) (is_zero-zeros l w.1)

-- The three forms.
module _ (a : Ipv6Addr) where
  abbrev left_out : Span
  left_out = longest_run (segments a)

  print_ip-mapped :
      is_ipv4_mapped a ≡ true
      → print_ip a ≡ chars "::ffff:" ++ (print_bytes a.s6 ++ b'.' ∷ print_bytes a.s7)
  unfolding print_ip
  print_ip-mapped mapped = rw mapped

  print_ip-compressed :
      is_ipv4_mapped a ≡ false
      → ltb 1 left_out.len ≡ true
      → print_ip a
        ≡ print_segments (take_first left_out.start (segments a))
          ++ chars "::"
          ++ print_segments (drop_first (left_out.start + left_out.len) (segments a))
  unfolding print_ip
  print_ip-compressed other long = rw (other, long)

  print_ip-plain :
      is_ipv4_mapped a ≡ false
      → ltb 1 left_out.len ≡ false
      → print_ip a ≡ print_segments (segments a)
  unfolding print_ip
  print_ip-plain other short = rw (other, short)

  mapped_segments :
      is_ipv4_mapped a ≡ true → segments a ≡ 0 ∷ 0 ∷ 0 ∷ 0 ∷ 0 ∷ 0xffff ∷ a.s6 ∷ a.s7 ∷ []
  unfolding is_ipv4_mapped
  mapped_segments mapped =
      let w = and_true (is_zero (a.s0 ∷ a.s1 ∷ a.s2 ∷ a.s3 ∷ a.s4 ∷ [])) (a.s5 == 0xffff) mapped in
      let first = is_zero-zeros (a.s0 ∷ a.s1 ∷ a.s2 ∷ a.s3 ∷ a.s4 ∷ []) w.0 in
      let next = (==_iff a.s5 0xffff).0 w.1 in
      ap (λ l. l ++ a.s5 ∷ a.s6 ∷ a.s7 ∷ []) first
      ∙ ap (λ s. 0 ∷ 0 ∷ 0 ∷ 0 ∷ 0 ∷ s ∷ a.s6 ∷ a.s7 ∷ []) next

  module _ (h : IsInRange a) (long : left_out.len ≢ 0) (run : IsRun (segments a) left_out) where
    ahead : take_first left_out.start (segments a) ≡ run.front
    ahead =
        ap (λ n. take_first n (segments a)) (run.starts long)
        ∙ ap (take_first (length run.front)) run.parts
        ∙ take_first-append run.front (zeros left_out.len ++ run.back)

    behind : drop_first (left_out.start + left_out.len) (segments a) ≡ run.back
    behind =
        ap (drop_first (left_out.start + left_out.len)) run.parts
        ∙ drop_first-zeros (left_out.start + left_out.len) run.front left_out.len run.back
            (ap (λ n. n + left_out.len) (run.starts long))

    lengths : length run.front + (left_out.len + length run.back) ≡ 8
    lengths =
        let all = ap length run.parts in
        let first = length-append run.front (zeros left_out.len ++ run.back) in
        let second = length-append (zeros left_out.len) run.back in
        let left = length-zeros left_out.len in omega (arith, all, first, second, left)

    compressed :
        read_ip (
          print_segments (take_first left_out.start (segments a))
          ++ chars "::"
          ++ print_segments (drop_first (left_out.start + left_out.len) (segments a)))
        ≡ segments a
    compressed =
        let small = subst (All (λ s. s < 65536)) run.parts h in
        ap
          (λ f. read_ip (
            print_segments f
            ++ chars "::"
            ++ print_segments (drop_first (left_out.start + left_out.len) (segments a))))
          ahead
        ∙ ap (λ b. read_ip (print_segments run.front ++ chars "::" ++ print_segments b)) behind
        ∙ ap read_ip
            (append_assoc (print_segments run.front) (chars "::") (print_segments run.back))
        ∙ read_ip-compressed run.front run.back left_out.len
            (All-front (λ s. s < 65536) run.front _ small)
            (All-back (λ s. s < 65536) (zeros left_out.len) run.back
              (All-back (λ s. s < 65536) run.front _ small))
            lengths
        ∙ sym run.parts

-- A printed address with segments of 16 bits is read as its segments.
pub read_ip-print_ip : (a : Ipv6Addr) → IsInRange a → read_ip (print_ip a) ≡ segments a
read_ip-print_ip a h = elim (Bool-cases (is_ipv4_mapped a)) [
  | inl mapped ↦
      ap read_ip (print_ip-mapped a mapped)
      ∙ read_ip-mapped a.s6 a.s7 (h.1.1.1.1.1.1.0) (h.1.1.1.1.1.1.1.0)
      ∙ sym (mapped_segments a mapped)
  | inr other ↦ elim (Bool-cases (ltb 1 (left_out a).len)) [
    | inl long ↦
        ap read_ip (print_ip-compressed a other long)
        ∙ compressed a h (λ z. let many = ltb→lt 1 (left_out a).len long in omega arith)
            (longest_run-IsRun (segments a))
    | inr short ↦ ap read_ip (print_ip-plain a other short) ∙ read_ip-plain a.s0 _ h refl
  ]
]

-- The characters of a printed address.
module _ (c : ℕ) (m : IsMark c) (no_colon : c ≢ b':') (no_dot : c ≢ b'.') where
  abbrev Differs : ℕ → Type 0
  Differs x = x ≢ c

  tail-Lacks : (l : List ℕ) → Lacks c (print_tail l)
  tail-Lacks [] = tt
  tail-Lacks (s ∷ l) = (
    (λ e. no_colon (sym e)),
    All-append Differs (hex s) (print_tail l) (hex-Lacks c s m) (tail-Lacks l),
  )

  segments-Lacks : (l : List ℕ) → Lacks c (print_segments l)
  segments-Lacks [] = tt
  segments-Lacks (s ∷ l) =
      All-append Differs (hex s) (print_tail l) (hex-Lacks c s m) (tail-Lacks l)

  bytes_without : (s : ℕ) → Lacks c (print_bytes s)
  bytes_without s =
      All-append Differs (decimal (s / 256 % 256)) _ (decimal-Lacks c _ m)
        ((λ e. no_dot (sym e)), decimal-Lacks c _ m)

  -- Colons, dots and digits.
  pub print_ip-Lacks : (a : Ipv6Addr) → Lacks c (print_ip a)
  print_ip-Lacks a =
      let colon = λ (e : b':' ≡ c). no_colon (sym e) in
      let f : b'f' ≢ c = λ e. let l = m.low in omega arith in
      elim (Bool-cases (is_ipv4_mapped a)) [
        | inl mapped ↦ subst (Lacks c) (sym (print_ip-mapped a mapped)) (
            All-append Differs (chars "::ffff:") _ (colon, (colon, (f, (f, (f, (f, (colon, tt)))))))
              (All-append Differs (print_bytes a.s6) _ (bytes_without a.s6)
                ((λ e. no_dot (sym e)), bytes_without a.s7)))
        | inr other ↦ elim (Bool-cases (ltb 1 (left_out a).len)) [
          | inl long ↦ subst (Lacks c) (sym (print_ip-compressed a other long)) (
              All-append Differs _ (print_segments _)
                (All-append Differs (print_segments _) (chars "::") (segments-Lacks _)
                  (colon, (colon, tt)))
                (segments-Lacks _))
          | inr short ↦
              subst (Lacks c) (sym (print_ip-plain a other short)) (segments-Lacks (segments a))
        ]
      ]
