-- ===== src/Net/Display/Mapped.antt =====
-- A printed IPv6 address with an embedded IPv4 address is read as that address.
use tansa.Prelude.{
  ℕ, ◌<◌, ◌+◌, ◌*◌, ◌/◌, ◌%◌, ◌≡◌, ◌≢◌, refl, sym, ap, ◌∙◌, [], ◌∷◌, ◌++◌, All-append, inl, inr,
  arith,
}
use mathlib.Core.List.{append_assoc}
use tansa.Net.Texts.{Lacks, split_at, split_at-append, split_at-Lacks}
use tansa.Net.Display.{Text, chars, decimal, read_digits, read-decimal, print_bytes}
use tansa.Net.Display.Digits.{decimal-Lacks, decimal-Cons, append-Cons, IsMark}
use tansa.Net.Display.Reader.{
  read_ip, read_group, group_of, front, back, values, values-group, from_groups,
}

-- The embedded IPv4 address.
module _ (s6 s7 : ℕ) (small6 : s6 < 65536) (small7 : s7 < 65536) where
  abbrev dotted : Text
  dotted = print_bytes s6 ++ b'.' ∷ print_bytes s7

  bytes_other_than : (c s : ℕ) → IsMark c → c ≢ b'.' → Lacks c (print_bytes s)
  bytes_other_than c s m n =
      All-append (λ x. x ≢ c) (decimal (s / 256 % 256)) _ (decimal-Lacks c _ m)
        ((λ e. n (sym e)), decimal-Lacks c _ m)

  dotted-Lacks : Lacks b':' dotted
  dotted-Lacks =
      let m : IsMark b':' = record { low = omega arith; outside = inr (omega arith) } in
      All-append (λ x. x ≢ b':') (print_bytes s6) _ (bytes_other_than b':' s6 m (λ e. omega arith))
        ((λ e. omega arith), bytes_other_than b':' s7 m (λ e. omega arith))

  byte : (n : ℕ) → n < 256 → read_digits 10 0 (decimal n) ≡ n
  byte n h = read-decimal n (omega arith)

  byte_without_dot : (n : ℕ) → Lacks b'.' (decimal n)
  byte_without_dot n =
      decimal-Lacks b'.' n (record { low = omega arith; outside = inl (omega arith) })

  parts :
      split_at b'.' dotted
      ≡ decimal (s6 / 256 % 256)
        ∷ decimal (s6 % 256)
        ∷ decimal (s7 / 256 % 256)
        ∷ decimal (s7 % 256)
        ∷ []
  parts =
      let d = decimal (s7 / 256 % 256) ++ b'.' ∷ decimal (s7 % 256) in
      ap (split_at b'.')
        (append_assoc (decimal (s6 / 256 % 256)) (b'.' ∷ decimal (s6 % 256)) (b'.' ∷ d))
      ∙ split_at-append b'.' (decimal (s6 / 256 % 256)) (decimal (s6 % 256) ++ b'.' ∷ d)
          (byte_without_dot _)
      ∙ ap (λ l. decimal (s6 / 256 % 256) ∷ l)
          (split_at-append b'.' (decimal (s6 % 256)) d (byte_without_dot _)
            ∙ ap (λ l. decimal (s6 % 256) ∷ l)
                (split_at-append b'.' (decimal (s7 / 256 % 256)) (decimal (s7 % 256))
                    (byte_without_dot _)
                  ∙ ap (λ l. decimal (s7 / 256 % 256) ∷ l)
                      (split_at-Lacks b'.' (decimal (s7 % 256)) (byte_without_dot _))))

  abbrev value : ℕ → ℕ
  value s = read_digits 10 0 (decimal (s / 256 % 256)) * 256 + read_digits 10 0 (decimal (s % 256))

  segment : (s : ℕ) → s < 65536 → value s ≡ s
  segment s h =
      let high = byte (s / 256 % 256) (omega arith) in
      let low = byte (s % 256) (omega arith) in omega (arith, high, low)

  read_group-dotted : read_group dotted ≡ s6 ∷ s7 ∷ []
  unfolding read_group
  read_group-dotted =
      ap (λ p. group_of p dotted) parts
      ∙ ap (λ n. n ∷ value s7 ∷ []) (segment s6 small6)
      ∙ ap (λ n. s6 ∷ n ∷ []) (segment s7 small7)

  -- `::ffff:` and the four bytes.
  pub read_ip-mapped :
      read_ip (chars "::ffff:" ++ dotted) ≡ 0 ∷ 0 ∷ 0 ∷ 0 ∷ 0 ∷ 0xffff ∷ s6 ∷ s7 ∷ []
  unfolding split_at front back values read_group read_digits
  read_ip-mapped =
      let split = split_at-Lacks b':' dotted dotted-Lacks in
      let filled = append-Cons (print_bytes s6) (b'.' ∷ print_bytes s7) (
        append-Cons (decimal (s6 / 256 % 256)) (b'.' ∷ decimal (s6 % 256))
          (decimal-Cons (s6 / 256 % 256))) in
      from_groups (chars "::ffff:" ++ dotted) ([] ∷ [] ∷ chars "ffff" ∷ dotted ∷ []) []
        (0xffff ∷ s6 ∷ s7 ∷ []) 5 (ap (λ gs. [] ∷ [] ∷ chars "ffff" ∷ gs) split) refl
        (ap (λ l. 0xffff ∷ l) (values-group dotted filled [] ∙ ap (λ l. l ++ []) read_group-dotted))
        refl
