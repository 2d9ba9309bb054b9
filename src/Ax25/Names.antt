-- ===== src/Ax25/Names.antt =====
-- The text form of addresses, and the checks on the callsign and the SSID.
use rfmpd.Base.{
  All, Bool-cases, Bytes, [], ap, arith, false, inl, inr, length, le→leb, none, refl, some, suc,
  true, ℕ, ◌++◌, ◌<◌, ◌==◌, ◌↔◌, ◌∷◌, ◌≡◌, ◌≢◌, ◌≤◌,
}
use rfmpd.Base.Int.{ℤ, pos, to_ℕ}
use rfmpd.Text.{upper_byte, to_upper, cut, atoi, itoa_ℕ}
use rfmpd.Text.Decimal.{atoi-itoa}
use rfmpd.Ax25.{Ax25Address, ok, in_ssid_range, new_address, parse_address, address_string}
use rfmpd.Ax25.Address.{IsCallsignByte}

-- A callsign byte that upper-casing keeps, and that is not the separator.
abbrev pub IsNameByte : ℕ → Type 0
IsNameByte c = (upper_byte c ≡ c) × (c ≢ b'-')

abbrev pub IsName : Bytes → Type 0
IsName = All IsNameByte

to_upper-IsName : (cs : Bytes) → IsName cs → to_upper cs ≡ cs
unfolding to_upper
to_upper-IsName [] h = refl
to_upper-IsName (c ∷ cs) h = ground (arith, to_upper-IsName cs h.1)

cut-IsName : (cs : Bytes) → IsName cs → cut b'-' cs ≡ none
unfolding cut
cut-IsName [] h = refl
cut-IsName (c ∷ cs) h = ground (arith, cut-IsName cs h.1)

pub cut-append : (cs rest : Bytes) → IsName cs → cut b'-' (cs ++ (b'-' ∷ rest)) ≡ some (cs, rest)
unfolding cut
cut-append [] rest h = refl
cut-append (c ∷ cs) rest h = ground (arith, cut-append cs rest h.1)

new_address-IsName :
    (cs : Bytes) (n : ℕ)
    → IsName cs
    → length cs ≤ 6
    → n < 16
    → new_address cs (pos n) ≡ ok (record { callsign = cs; ssid = n })
unfolding new_address
new_address-IsName cs n h l m = rw (to_upper-IsName cs h) (ground arith)

parse_address_plain : (s : Bytes) → cut b'-' s ≡ none → parse_address s ≡ new_address s (pos 0)
unfolding parse_address
parse_address_plain s e = rw e

parse_address_dashed :
    (s cs ds : Bytes) (n : ℕ)
    → cut b'-' s ≡ some (cs, ds)
    → atoi ds ≡ some (pos n)
    → n < 16
    → parse_address s ≡ new_address cs (pos n)
unfolding parse_address
parse_address_dashed s cs ds n e f m = rw (e, f, le→leb n 15 (omega arith))

address_string_zero : (a : Ax25Address) → a.ssid ≡ 0 → address_string a ≡ a.callsign
unfolding address_string
address_string_zero a z = ground arith

address_string_pos :
    (a : Ax25Address)
    → (a.ssid == 0) ≡ false
    → address_string a ≡ a.callsign ++ (b'-' ∷ itoa_ℕ a.ssid)
unfolding address_string
address_string_pos a z = rw z

-- The printed form of an address with an upper-case callsign of at most six bytes and no dash
-- is parsed back to it, for every SSID from 0 to 15.
pub parse-address_string :
    (a : Ax25Address)
    → IsName a.callsign
    → length a.callsign ≤ 6
    → a.ssid < 16
    → parse_address (address_string a) ≡ ok a
parse-address_string a h l m = elim (Bool-cases (a.ssid == 0)) [
  | inl z ↦
      let e : a.ssid ≡ 0 = ground arith in
      rw
        (
          address_string_zero a e,
          parse_address_plain a.callsign (cut-IsName a.callsign h),
          new_address-IsName a.callsign 0 h l (omega arith),
        )
        (ground arith)
  | inr n ↦ rw (
    address_string_pos a n,
    parse_address_dashed (a.callsign ++ (b'-' ∷ itoa_ℕ a.ssid)) a.callsign (itoa_ℕ a.ssid) a.ssid
        (cut-append a.callsign (itoa_ℕ a.ssid) h) (atoi-itoa a.ssid (omega arith)) m,
    new_address-IsName a.callsign a.ssid h l m,
  )
]

length-to_upper : (cs : Bytes) → length (to_upper cs) ≡ length cs
unfolding to_upper
length-to_upper [] = refl
length-to_upper (c ∷ cs) = ap suc (length-to_upper cs)

to_upper-IsCallsignByte : (cs : Bytes) → All IsCallsignByte cs → All IsCallsignByte (to_upper cs)
unfolding to_upper
to_upper-IsCallsignByte [] h = tt
to_upper-IsCallsignByte (c ∷ cs) h = (ground arith, to_upper-IsCallsignByte cs h.1)

-- `NewAX25Address` succeeds exactly when the callsign has at most six bytes and the SSID is from
-- 0 to 15; the address then has the upper-cased callsign and that SSID.
new_address_iff :
    (cs : Bytes) (ssid : ℤ) (a : Ax25Address)
    → (new_address cs ssid ≡ ok a) ↔ (
        (length cs ≤ 6)
        × (in_ssid_range ssid ≡ true)
        × (a ≡ record { callsign = to_upper cs; ssid = to_ℕ ssid }))
unfolding new_address
new_address_iff cs ssid a = (ground (arith, length-to_upper cs), ground (arith, length-to_upper cs))
