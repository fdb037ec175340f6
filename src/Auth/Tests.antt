-- ===== src/Auth/Tests.antt =====
-- Requests with a signer whose tokens are the role, after one character.
use veillee.Base.{
  ok, zero, suc, ◌≡◌, ◌⊎◌, refl, true, false, Option, none, some, [], ◌∷◌, nat_eq, list_eq,
  list_beq,
}
use veillee.Base.Text.{Text, codes, starts_with, strip, strip_left, strip_right}
use veillee.Auth.{
  Passcodes, Signer, Request, Payload, role_family, issue_cookie, role_for_passcode,
  role_from_cookie, role_of_payload, known_role, passcodes_enabled, is_open_path, is_authorised,
  has_valid_cookie, family_may, Verdict, is_api, acting_role, passcode_gate,
}
use veillee.Auth.Gate.{family_only_reads, IsSigner, sign_in_lasts, IsReading}

-- A token that spells its payload out.
abbrev token_of : Payload → Text
token_of Payload.other = 0 ∷ []
token_of (Payload.mapping false none) = 1 ∷ []
token_of (Payload.mapping true none) = 2 ∷ []
token_of (Payload.mapping false (some r)) = 3 ∷ r
token_of (Payload.mapping true (some r)) = 4 ∷ r

abbrev payload_of : Text → Option Payload
payload_of [] = none
payload_of (zero ∷ s) = some Payload.other
payload_of (suc zero ∷ s) = some (Payload.mapping false none)
payload_of (suc (suc zero) ∷ s) = some (Payload.mapping true none)
payload_of (suc (suc (suc zero)) ∷ s) = some (Payload.mapping false (some s))
payload_of (suc (suc (suc (suc c))) ∷ s) = some (Payload.mapping true (some s))

abbrev toy_signer : Signer
toy_signer = record { dumps = token_of; loads = payload_of }

reads_token : (p : Payload) → payload_of (token_of p) ≡ some p
reads_token Payload.other = refl
reads_token (Payload.mapping false none) = refl
reads_token (Payload.mapping true none) = refl
reads_token (Payload.mapping false (some r)) = refl
reads_token (Payload.mapping true (some r)) = refl

token_is_not_empty : (p : Payload) → token_of p ≡ [] → ⊥
token_is_not_empty Payload.other h = cc h
token_is_not_empty (Payload.mapping false none) h = cc h
token_is_not_empty (Payload.mapping true none) h = cc h
token_is_not_empty (Payload.mapping false (some r)) h = cc h
token_is_not_empty (Payload.mapping true (some r)) h = cc h

toy_signer-IsSigner : IsSigner toy_signer
toy_signer-IsSigner = record { loads-dumps = reads_token; dumps-ne-nil = token_is_not_empty }

abbrev two_passcodes : Passcodes
two_passcodes = record { passcode = some (codes "stylo"); family_passcode = some (codes "lire") }

abbrev family_reads : Request
family_reads = record {
  method = codes "GET";
  path = codes "/browse";
  cookie = some (issue_cookie toy_signer role_family);
}

handled : passcode_gate toy_signer two_passcodes family_reads ≡ Verdict.handled_as role_family
unfolding passcode_gate is_authorised passcodes_enabled is_open_path has_valid_cookie
    role_from_cookie role_of_payload known_role issue_cookie family_may acting_role starts_with
    list_beq is_api
handled = refl

family_only_reads_example : (is_open_path family_reads.path ≡ true) ⊎ IsReading family_reads
family_only_reads_example = family_only_reads toy_signer two_passcodes family_reads handled

earns_family : role_for_passcode (codes " lire ") two_passcodes ≡ ok (some role_family)
unfolding role_for_passcode strip strip_left strip_right list_beq
earns_family = refl

abbrev next_request : Request
next_request = record {
  method = codes "GET";
  path = codes "/";
  cookie = some (issue_cookie toy_signer role_family);
}

sign_in_lasts_example :
    (is_authorised toy_signer two_passcodes next_request ≡ true)
    × (acting_role toy_signer next_request ≡ role_family)
sign_in_lasts_example =
    sign_in_lasts toy_signer two_passcodes (codes " lire ") role_family (codes "GET") (codes "/")
      toy_signer-IsSigner earns_family
