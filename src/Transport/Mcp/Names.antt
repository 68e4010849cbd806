-- ===== src/Transport/Mcp/Names.antt =====
-- The names of tools in headers.
use kessa.Base.{
  ltb, leb, ◌+◌, ◌-◌, ◌==◌, ==_iff, ◌≡◌, ◌≢◌, ◌↔◌, refl, sym, ap, subst, Bytes, Str, codes, str_eq,
  str_eq_refl, ◌∙◌, length, length-append, take, drop, true, false, Bool-cases, ◌&&◌, Option, none,
  some, Option-cases, [], ◌∷◌, ◌++◌, if_cases, inl, inr, arith, some_inj,
}
use kessa.Transport.Mcp.{
  McpCodec, decoded, panics, from_base64, slice_encoded, has_suffix, is_prefixed,
  decode_header_value,
}
use kessa.Web.{after_prefix}

abbrev opening : Str
opening = codes "=?base64?"

abbrev closing : Str
closing = codes "?="

after_prefix-append : (p s t : Str) → after_prefix p s ≡ some t → s ≡ p ++ t
unfolding after_prefix
after_prefix-append [] s t h = some_inj h
after_prefix-append (c ∷ p) [] t h = cc
after_prefix-append (c ∷ p) (x ∷ s) t h = elim (Bool-cases (x == c)) [
  | inl e ↦
      let rest : s ≡ p ++ t = after_prefix-append p s t (rw e at h) in
      let head : x ≡ c = (==_iff x c).0 e in cc (head, rest)
  | inr e ↦ cc (rw e at h)
]

from_base64-panics : (o : Option Bytes) → from_base64 o ≢ panics
unfolding from_base64
from_base64-panics none h = cc
from_base64-panics (some raw) h = cc

after_opening :
    (codec : McpCodec) (t : Str) → decode_header_value codec (opening ++ t) ≡ panics → t ≡ codes "="
unfolding decode_header_value is_prefixed after_prefix has_suffix slice_encoded str_eq
after_opening codec [] h = cc
after_opening codec (x ∷ []) h =
    if_cases (λ z. z ≡ panics → ◌≡◌ {A = Str} (x ∷ []) (codes "="))
      (true && has_suffix (opening ++ x ∷ []) closing) (λ e r. ap (λ y. y ∷ []) (ground (arith, e)))
      (λ e r. cc) h
after_opening codec (x ∷ y ∷ t) h =
    let long : ltb (length (opening ++ x ∷ y ∷ t)) 11 ≡ false = ground arith in
    absurd (
      if_cases (λ z. z ≢ panics) (true && has_suffix (opening ++ x ∷ y ∷ t) closing)
        (λ e r. from_base64-panics _ (rw long at r)) (λ e r. cc) h)

take-append : (s t : Str) → take (length s) (s ++ t) ≡ s
take-append [] t = refl
take-append (c ∷ s) t = ap (λ r. c ∷ r) (take-append s t)

drop-append : (s t : Str) → drop (length s) (s ++ t) ≡ t
drop-append [] t = refl
drop-append (c ∷ s) t = drop-append s t

has_suffix-append : (s suffix : Str) → has_suffix (s ++ suffix) suffix ≡ true
unfolding has_suffix
has_suffix-append s suffix =
    let whole = length-append s suffix in
    let fits : leb (length suffix) (length (s ++ suffix)) ≡ true = ground (arith, whole) in
    let skipped : length (s ++ suffix) - length suffix ≡ length s = omega (arith, whole) in
    rw fits (rw skipped (rw (drop-append s suffix) (str_eq_refl suffix)))

-- Decoding a header value panics exactly at =?base64?=, where the prefix and the suffix overlap; a
-- value between the two markers decodes to what base64 decodes it to.
pub decode_header_value-encoded :
    (codec : McpCodec) (v : Str)
    → ((decode_header_value codec v ≡ panics) ↔ (v ≡ codes "=?base64?="))
      × ((enc name : Str)
          → codec.decode_base64 enc ≡ some name
          → decode_header_value codec (codes "=?base64?" ++ (enc ++ codes "?=")) ≡ decoded name)
unfolding decode_header_value is_prefixed after_prefix has_suffix slice_encoded from_base64 str_eq
decode_header_value-encoded codec v =
    ((only_one, λ e. subst (λ u. decode_header_value codec u ≡ panics) (sym e) refl), decodes)
  where
    only_one : decode_header_value codec v ≡ panics → v ≡ codes "=?base64?="
    only_one h = elim (Option-cases (after_prefix opening v)) [
      | inl e ↦ cc (rw e at h)
      | inr (t, e) ↦
          let whole : v ≡ opening ++ t = after_prefix-append opening v t e in
          whole
          ∙ ap (λ r. opening ++ r)
              (after_opening codec t (subst (λ u. decode_header_value codec u ≡ panics) whole h))
    ]

    decodes :
        (enc name : Str)
        → codec.decode_base64 enc ≡ some name
        → decode_header_value codec (opening ++ (enc ++ closing)) ≡ decoded name
    decodes enc name h =
        let total : length (enc ++ closing) ≡ length enc + 2 = length-append enc closing in
        let ends : has_suffix (opening ++ (enc ++ closing)) closing ≡ true =
          has_suffix-append (opening ++ enc) closing in
        let long : ltb (length (opening ++ (enc ++ closing))) 11 ≡ false = ground (arith, total) in
        let inner : length (opening ++ (enc ++ closing)) - 11 ≡ length enc = omega (arith, total) in
        rw ends (rw long (rw inner (rw (take-append enc closing) (rw h refl))))
