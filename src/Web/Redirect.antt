-- ===== src/Web/Redirect.antt =====
-- The target of the redirection after signing in.
use veillee.Base.{
  ◌≡◌, refl, subst, true, false, Option, some, Bool-cases, inl, inr, nat_eq, list_eq, Outcome-cases,
  ok, none,
}
use veillee.Base.Text.{Text, codes, starts_with, has_infix}
use veillee.Auth.{Signer, Passcodes, role_for_passcode, issue_cookie}
use veillee.Web.Pages.{safe_next, redirect, enter_submit}

safe_next_local :
    (next_path : Text)
    → (starts_with (safe_next next_path) (codes "/") ≡ true)
      × (has_infix (safe_next next_path) (codes "//") ≡ false)
unfolding safe_next starts_with has_infix
safe_next_local next_path = elim (Bool-cases (starts_with next_path (codes "/"))) [
  | inr n ↦ rw (n, safe_next) (refl, refl)
  | inl s ↦ elim (Bool-cases (has_infix next_path (codes "//"))) [
    | inl i ↦ rw (s, i, safe_next) (refl, refl)
    | inr n ↦ rw (s, n, safe_next) (s, n)
  ]
]

-- Where signing in redirects, it sets the cookie of the role that the passcode has, and leads to a target
-- that begins with a slash and has no two in a row.
pub enter_submit_redirects :
    (signer : Signer) (passcodes : Passcodes) (passcode next_path target : Text)
    (cookie : Option Text)
    → enter_submit signer passcodes passcode next_path ≡ redirect target cookie
    → (starts_with target (codes "/") ≡ true)
      × (has_infix target (codes "//") ≡ false)
      × ((role : Text) × (role_for_passcode passcode passcodes ≡ ok (some role))
          × (cookie ≡ some (issue_cookie signer role)))
unfolding enter_submit
enter_submit_redirects signer passcodes passcode next_path target cookie h =
    elim (Outcome-cases (role_for_passcode passcode passcodes)) [
      | inr (x, e) ↦ absurd (cc (rw (e, enter_submit) at h))
      | inl (none, e) ↦ absurd (cc (rw (e, enter_submit) at h))
      | inl (some role, e) ↦
          let made = rw (e, enter_submit) at h in
          let (local, single) = safe_next_local next_path in
          let there : safe_next next_path ≡ target = cc made in
          (
            subst (λ t. starts_with t (codes "/") ≡ true) there local,
            subst (λ t. has_infix t (codes "//") ≡ false) there single,
            (role, e, cc made),
          )
    ]
