-- ===== src/Auth/Gate.antt =====
-- What the gate lets through, and what a typed word earns.
use veillee.Base.{
  Bool, inl, inr, ok, >>=-eq-ok, ok_injective, ◌≡◌, ◌≢◌, ◌↔◌, ◌⊎◌, true, false, not, none, some, [],
  ◌∷◌, ◌&&◌, arith, any, ◌==◌, nat_eq, list_eq, ==_iff, ==_refl, list_beq, ne_of_beq, beq_of_ne,
  refl, contains, if◌then◌else◌,
}
use veillee.Base.Text.{Text, codes, starts_with, strip, is_space}
use veillee.Auth.{
  Passcodes, Signer, Request, Payload, mapping, Verdict, role_writer, role_family,
  family_denied_prefixes, is_api, issue_cookie, role_from_cookie, role_for_passcode, word_matches,
  is_open_path, is_authorised, passcodes_enabled, has_valid_cookie, family_may, redirect_to_entry,
  acting_role, passcode_gate, known_role, role_of_payload,
}

-- The request reads and goes nowhere that is his alone.
abbrev pub IsReading : Request → Type 0
IsReading r =
    (contains (codes "GET" ∷ codes "HEAD" ∷ codes "OPTIONS" ∷ []) r.method ≡ true)
    × (any (starts_with r.path) family_denied_prefixes ≡ false)

-- A request reaches its handler, in the role it asks for, exactly when it is authorised, acts in
-- that role, and is not a family request outside the open paths that the family may not make.
gate_handles :
    (signer : Signer) (active : Passcodes) (request : Request) (role : Text)
    → (passcode_gate signer active request ≡ Verdict.handled_as role) ↔ (
        (is_authorised signer active request ≡ true)
        × (acting_role signer request ≡ role)
        × (((role == role_family) && not (is_open_path request.path) && not (family_may request))
            ≡ false))
unfolding passcode_gate
gate_handles signer active request role = (λ h. ground arith, λ h. ground arith)

family_may-IsReading : (request : Request) → family_may request ≡ true → IsReading request
unfolding family_may
family_may-IsReading request h = ground arith

-- Whatever reaches a handler in the family's role is an open path, or a GET, HEAD or OPTIONS of a
-- path under none of the denied prefixes: no transcript, no save, no upload, no deletion.
pub family_only_reads :
    (signer : Signer) (active : Passcodes) (request : Request)
    → passcode_gate signer active request ≡ Verdict.handled_as role_family
    → (is_open_path request.path ≡ true) ⊎ IsReading request
family_only_reads signer active request h =
    let (_, _, allowed) = (gate_handles signer active request role_family).0 h in
    ground (arith, ==_refl role_family, family_may-IsReading request)

locked-is_authorised :
    (signer : Signer) (active : Passcodes) (request : Request)
    → passcodes_enabled active ≡ true
    → is_open_path request.path ≡ false
    → role_from_cookie signer request ≡ none
    → is_authorised signer active request ≡ false
unfolding is_authorised has_valid_cookie
locked-is_authorised signer active request on closed unsigned = ground arith

-- With a passcode set, a request outside the open paths whose cookie is missing or does not verify
-- reaches no handler: an API call is refused, and any other is sent to the passcode page.
locked_without_cookie :
    (signer : Signer) (active : Passcodes) (request : Request)
    → passcodes_enabled active ≡ true
    → is_open_path request.path ≡ false
    → role_from_cookie signer request ≡ none
    → passcode_gate signer active request ≡ (
        if is_api request
        then Verdict.not_signed_in
        else Verdict.to_entry (redirect_to_entry request))
unfolding passcode_gate
locked_without_cookie signer active request on closed unsigned =
    rw (locked-is_authorised signer active request on closed unsigned)

writer_not_family : role_writer ≢ role_family
unfolding list_beq
writer_not_family = ne_of_beq role_writer role_family refl

-- What the signing library promises: a token reads back as what was signed, and is not empty.
pub record IsSigner (signer : Signer) : Type 0 where
  pub loads-dumps : (p : Payload) → signer.loads (signer.dumps p) ≡ some p
  pub dumps-ne-nil : (p : Payload) → signer.dumps p ≢ []

earned_roles :
    (candidate : Text) (settings : Passcodes) (role : Text)
    → role_for_passcode candidate settings ≡ ok (some role)
    → (role ≡ role_writer) ⊎ (role ≡ role_family)
unfolding role_for_passcode
earned_roles candidate settings role h =
    let typed = strip is_space candidate in
    let (writer_ok, a, h1) = >>=-eq-ok (word_matches typed settings.passcode) _ h in
    let (family_ok, b, h2) = >>=-eq-ok (word_matches typed settings.family_passcode) _ h1 in
    one_of writer_ok family_ok (ok_injective h2)
  where
    one_of :
        (writer_ok family_ok : Bool)
        → (if writer_ok then some role_writer else if family_ok then some role_family else none)
          ≡ some role
        → (role ≡ role_writer) ⊎ (role ≡ role_family)
    one_of true family_ok e = inl (cc e)
    one_of false true e = inr (cc e)
    one_of false false e = absurd (cc e)

known_role-known :
    (role : Text) → (role ≡ role_writer) ⊎ (role ≡ role_family) → known_role role ≡ role
unfolding known_role
known_role-known role h = ground (arith, ==_iff role_writer role, ==_iff role_family role)

issued_role :
    (signer : Signer) (law : IsSigner signer) (method path role : Text)
    → (role ≡ role_writer) ⊎ (role ≡ role_family)
    → role_from_cookie signer
        (record { method = method; path = path; cookie = some (issue_cookie signer role) })
      ≡ some role
unfolding role_from_cookie issue_cookie role_of_payload
issued_role signer law method path role known =
    rw (beq_of_ne _ _ (law.dumps-ne-nil (mapping true (some role))), law.loads-dumps)
      (rw (known_role-known role known))

authorised_by_cookie :
    (signer : Signer) (settings : Passcodes) (request : Request) (role : Text)
    → role_from_cookie signer request ≡ some role
    → is_authorised signer settings request ≡ true
unfolding is_authorised has_valid_cookie
authorised_by_cookie signer settings request role e = ground arith

acting_by_cookie :
    (signer : Signer) (request : Request) (role : Text)
    → role_from_cookie signer request ≡ some role
    → acting_role signer request ≡ role
unfolding acting_role
acting_by_cookie signer request role e = ground arith

-- Once a typed word has earned a role, every later request that carries the cookie issued for it is
-- authorised and acts in that role.
pub sign_in_lasts :
    (signer : Signer) (settings : Passcodes) (candidate role method path : Text)
    → IsSigner signer
    → role_for_passcode candidate settings ≡ ok (some role)
    → let request : Request = record {
      method = method;
      path = path;
      cookie = some (issue_cookie signer role);
    } in
      (is_authorised signer settings request ≡ true) × (acting_role signer request ≡ role)
sign_in_lasts signer settings candidate role method path law earned =
    let e = issued_role signer law method path role (earned_roles candidate settings role earned) in
    (
      authorised_by_cookie signer settings
          (record { method = method; path = path; cookie = some (issue_cookie signer role) }) role
          e,
      acting_by_cookie signer
          (record { method = method; path = path; cookie = some (issue_cookie signer role) }) role
          e,
    )
