-- ===== src/Net/Display.antt =====
-- `Display` of `Ipv6Addr` and `SocketAddrV6` in the Rust standard library. A text is the list of
-- its character codes.
pub mod Zeros
pub mod Digits
pub mod Reader
pub mod Mapped
pub mod Addresses
use tansa.Prelude.{
  ℕ, zero, suc, ◌+◌, ◌-◌, ◌*◌, ◌^◌, ◌≤◌, ◌<◌, arith, ◌/◌, ◌%◌, ◌≡◌, refl, Bool, ◌&&◌, List, [], ◌∷◌,
  ◌++◌, ltb, ltb→lt, Bool-cases, inl, inr, ap, subst, ◌∙◌, ◌==◌, if◌then◌else◌,
}
use tansa.Net.{Ipv6Addr, ipv6, segments, is_zero, SocketAddrV6, socket_addr_v6}
use native.Mathlib.Nat.{pow-zero, pow-suc, div-lt_iff_lt-mul, mod-lt, div-add-mod'}
use Prim.Native.Char.{code}
use Prim.Native.String.{String}

abbrev pub Text : Type 0
Text = List ℕ

abbrev pub chars : String → Text
chars String.[] = []
chars (String.◌∷◌ c s) = code c ∷ chars s

-- A digit, `0` to `9` and then `a` to `f`.
abbrev digit : ℕ → ℕ
digit d = if ltb d 10 then b'0' + d else b'a' + (d - 10)

-- The digits of a number in a base, with as many rounds as the first argument says. Ten rounds do
-- for a `u32` in base ten, four for a `u16` in base sixteen.
unfoldable pub print_digits : ℕ → ℕ → ℕ → Text → Text
print_digits zero base n after = after
print_digits (suc k) base n after =
    let more = print_digits k base (n / base) (digit (n % base) ∷ after) in
    if ltb n base then digit n ∷ after else more

abbrev pub decimal : ℕ → Text
decimal n = print_digits 10 10 n []

abbrev hex : ℕ → Text
hex n = print_digits 4 16 n []

abbrev print_tail : List ℕ → Text
print_tail [] = []
print_tail (s ∷ l) = b':' ∷ hex s ++ print_tail l

-- `fmt_subslice`: the segments, with colons in between.
abbrev print_segments : List ℕ → Text
print_segments [] = []
print_segments (s ∷ l) = hex s ++ print_tail l

pub record Span : Type 0 where
  pub start : ℕ
  pub len : ℕ

-- The first of the longest runs of zero segments.
longest_zeros : ℕ → Span → Span → List ℕ → Span
longest_zeros i current longest [] = longest
longest_zeros i current longest (s ∷ l) =
    let now : Span =
      if s == 0
      then record { start = (if current.len == 0 then i else current.start); len = current.len + 1 }
      else record { start = 0; len = 0 } in
    longest_zeros (i + 1) now (if ltb longest.len now.len then now else longest) l

unfoldable pub longest_run : List ℕ → Span
unfolding longest_zeros
longest_run l =
    let none_yet : Span = record { start = 0; len = 0 } in longest_zeros 0 none_yet none_yet l

pub take_first : ℕ → List ℕ → List ℕ
take_first zero l = []
take_first (suc n) [] = []
take_first (suc n) (x ∷ l) = x ∷ take_first n l

unfoldable pub drop_first : ℕ → List ℕ → List ℕ
drop_first zero l = l
drop_first (suc n) [] = []
drop_first (suc n) (x ∷ l) = drop_first n l

-- `::ffff:a.b.c.d`
is_ipv4_mapped : Ipv6Addr → Bool
is_ipv4_mapped a = is_zero (a.s0 ∷ a.s1 ∷ a.s2 ∷ a.s3 ∷ a.s4 ∷ []) && a.s5 == 0xffff

abbrev print_bytes : ℕ → Text
print_bytes s = decimal (s / 256 % 256) ++ b'.' ∷ decimal (s % 256)

unfoldable pub print_ip : Ipv6Addr → Text
unfolding longest_run take_first drop_first is_ipv4_mapped print_digits
print_ip a =
    let zeros = longest_run (segments a) in
    if is_ipv4_mapped a
    then chars "::ffff:" ++ print_bytes a.s6 ++ b'.' ∷ print_bytes a.s7
    else if ltb 1 zeros.len
    then print_segments (take_first zeros.start (segments a))
      ++ chars "::"
      ++ print_segments (drop_first (zeros.start + zeros.len) (segments a))
    else print_segments (segments a)

abbrev pub print_scope : ℕ → Text
print_scope s = if s == 0 then [] else b'%' ∷ decimal s

-- `[ip%scope]:port`, with no scope if that is 0.
unfoldable pub print_socket_addr : SocketAddrV6 → Text
unfolding print_ip
print_socket_addr a = b'[' ∷ print_ip a.ip ++ print_scope a.scope_id ++ chars "]:" ++ decimal a.port

print_scoped :
    print_socket_addr (socket_addr_v6 (ipv6 0 0 0 0 0 0 0 0x123) 3 0 456) ≡ chars "[::123%456]:3"
unfolding print_socket_addr
print_scoped = refl

print_discovery :
    print_socket_addr (socket_addr_v6 (ipv6 0xff05 0 0 0 0 0 0xf329 0x58af) 50000 0 0)
    ≡ chars "[ff05::f329:58af]:50000"
unfolding print_socket_addr
print_discovery = refl

print_mapped : print_ip (ipv6 0 0 0 0 0 0xffff 0x0102 0xff04) ≡ chars "::ffff:1.2.255.4"
unfolding print_ip
print_mapped = refl

digit_value : ℕ → ℕ
digit_value c = if ltb c b'a' then c - b'0' else c - b'a' + 10

-- The number that digits stand for, after the number `n`.
unfoldable pub read_digits : ℕ → ℕ → Text → ℕ
unfolding digit_value
read_digits base n [] = n
read_digits base n (c ∷ l) = read_digits base (n * base + digit_value c) l

digit_value-digit : (d : ℕ) → d < 16 → digit_value (digit d) ≡ d
unfolding digit_value
digit_value-digit d h = ground arith

-- With as many rounds as a number has digits, its digits are read back as the number.
pub read-print_digits :
    (k base n : ℕ) (after : Text)
    → 2 ≤ base
    → base ≤ 16
    → n < base ^ k
    → read_digits base 0 (print_digits k base n after) ≡ read_digits base n after
unfolding read_digits print_digits
read-print_digits zero base n after lo hi h =
    let small : n < 1 = subst (λ m. n < m) (pow-zero base) h in
    let is_zero : 0 ≡ n = omega arith in ap (λ m. read_digits base m after) is_zero
read-print_digits (suc k) base n after lo hi h =
    let positive : 0 < base = omega arith in
    elim (Bool-cases (ltb n base)) [
      | inl lt ↦
          let few : n < base = ltb→lt n base lt in
          let read : 0 * base + digit_value (digit n) ≡ n =
            omega (arith, digit_value-digit n (omega arith)) in
          rw lt (ap (λ m. read_digits base m after) read)
      | inr ge ↦
          let less : n / base < base ^ k =
            (div-lt_iff_lt-mul positive).1 (subst (λ m. n < m) (pow-suc base k) h) in
          let last : n % base < base = mod-lt n positive in
          let read : n / base * base + digit_value (digit (n % base)) ≡ n =
            ap (λ m. n / base * base + m) (digit_value-digit (n % base) (omega arith))
            ∙ div-add-mod' n base in
          rw ge (
            read-print_digits k base (n / base) (digit (n % base) ∷ after) lo hi less
            ∙ ap (λ m. read_digits base m after) read)
    ]

-- A `u16` is printed in decimal, and in hexadecimal, by digits that are read back as that number;
-- so is a `u32` in decimal. The rounds are enough.
pub read-decimal : (n : ℕ) → n < 4294967296 → read_digits 10 0 (decimal n) ≡ n
unfolding read_digits
read-decimal n h = read-print_digits 10 10 n [] (omega arith) (omega arith) (omega arith)

pub read-hex : (n : ℕ) → n < 65536 → read_digits 16 0 (hex n) ≡ n
unfolding read_digits
read-hex n h = read-print_digits 4 16 n [] (omega arith) (omega arith) (omega arith)
