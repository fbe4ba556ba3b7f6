-- ===== src/Config/Login.antt =====
-- When the fields of the configuration, once merged, give a login by OIDC, and which one.
use loku.Base.{Option, none, some, [], ◌≡◌, ◌↔◌, refl, sym, ap, ◌∙◌, if◌then◌else◌, or, is_none}
use loku.Base.Text.{Text, trim}
use loku.Config.Settings.{
  Environment, Setting, set, refused, file_read, OidcFields, OidcConfig, oidc_of, merged_fields,
  partial_fields, with_secret, resolve_oidc,
}

set-injective : {A : Type 0} (a b : A) → set a ≡ set b → a ≡ b
set-injective a b h = cc

-- What a login with these fields needs.
abbrev pub IsLogin : Environment → OidcFields → OidcConfig → Type 0
IsLogin env f c =
    (f.issuer ≡ some c.issuer)
    × (f.client_id ≡ some c.client_id)
    × ((path : Text) × (or f.secret_file env.credential_secret_path ≡ some path)
        × ((text : Text) × (env.read_to_string path ≡ some text) × (c.client_secret ≡ trim text)))

-- No field is given at all, other than a credential of systemd.
abbrev pub IsPlain : OidcFields → Type 0
IsPlain f = (f.issuer ≡ none) × (f.client_id ≡ none) × (f.secret_file ≡ none)

abbrev field_or : Option OidcConfig → (OidcConfig → Text) → Text → Text
field_or none field d = d
field_or (some c) field d = field c

with_secret-some :
    (env : Environment) (issuer client_id : Text) (secret : Option Text)
    → with_secret env issuer client_id secret ≡ set none
    → ⊥
with_secret-some env issuer client_id none h = cc
with_secret-some env issuer client_id (some path) h = go (env.read_to_string path) h
  where
    go :
        (o : Option Text)
        → ◌≡◌ {A = Setting (Option OidcConfig)}
            (elim o [
              | none ↦ refused (file_read path)
              | some text ↦ set (
                  some
                    (record { issuer = issuer; client_id = client_id; client_secret = trim text }))
            ])
            (set none)
        → ⊥
    go none e = cc
    go (some text) e = cc (set-injective _ _ e)

login_of_secret :
    (env : Environment) (issuer client_id : Text) (secret : Option Text) (c : OidcConfig)
    → with_secret env issuer client_id secret ≡ set (some c)
    → (issuer ≡ c.issuer)
      × (client_id ≡ c.client_id)
      × ((path : Text) × (secret ≡ some path)
          × ((text : Text) × (env.read_to_string path ≡ some text) × (c.client_secret ≡ trim text)))
login_of_secret env issuer client_id none c h = cc
login_of_secret env issuer client_id (some path) c h = go (env.read_to_string path) refl h
  where
    go :
        (o : Option Text)
        → env.read_to_string path ≡ o
        → ◌≡◌ {A = Setting (Option OidcConfig)}
            (elim o [
              | none ↦ refused (file_read path)
              | some text ↦ set (
                  some
                    (record { issuer = issuer; client_id = client_id; client_secret = trim text }))
            ])
            (set (some c))
        → (issuer ≡ c.issuer)
          × (client_id ≡ c.client_id)
          × ((path' : Text) × (some path ≡ some path')
              × ((text : Text) × (env.read_to_string path' ≡ some text)
                  × (c.client_secret ≡ trim text)))
    go none e h' = cc
    go (some text) e h' =
        let same = set-injective _ _ h' in
        (
          ap (λ o. field_or o (λ (x : OidcConfig). x.issuer) issuer) same,
          ap (λ o. field_or o (λ (x : OidcConfig). x.client_id) client_id) same,
          (
            path,
            refl,
            (text, e, sym (ap (λ o. field_or o (λ (x : OidcConfig). x.client_secret) []) same)),
          ),
        )

secret_of_login :
    (env : Environment) (secret : Option Text) (c : OidcConfig) (path text : Text)
    → secret ≡ some path
    → env.read_to_string path ≡ some text
    → c.client_secret ≡ trim text
    → with_secret env c.issuer c.client_id secret ≡ set (some c)
secret_of_login env secret c path text e read is_trim =
    ap (with_secret env c.issuer c.client_id) e
    ∙ ap
        (λ o. elim o [
          | none ↦ refused (file_read path)
          | some t ↦
              set (
                some
                  (record { issuer = c.issuer; client_id = c.client_id; client_secret = trim t }))
        ])
        read
    ∙ ap
        (λ s. set (some (record { issuer = c.issuer; client_id = c.client_id; client_secret = s })))
        (sym is_trim)

IsLogin-of_fields :
    (env : Environment) (f : OidcFields) (issuer client_id : Option Text) (c : OidcConfig)
    → f.issuer ≡ issuer
    → f.client_id ≡ client_id
    → oidc_of env f issuer client_id ≡ set (some c)
    → IsLogin env f c
IsLogin-of_fields env f none none c i d h = absurd (by_secret f.secret_file h)
  where
    by_secret :
        (o : Option Text)
        → (if is_none o then set none else refused (partial_fields env f)) ≡ set (some c)
        → ⊥
    by_secret none e = cc (set-injective _ _ e)
    by_secret (some x) e = cc
IsLogin-of_fields env f none (some client_id) c i d h = cc
IsLogin-of_fields env f (some issuer) none c i d h = cc
IsLogin-of_fields env f (some issuer) (some client_id) c i d h =
    let (issuer_is, client_is, secret) = login_of_secret env issuer client_id _ c h in
    (i ∙ ap (λ x. some x) issuer_is, d ∙ ap (λ x. some x) client_is, secret)

IsPlain-of_fields :
    (env : Environment) (f : OidcFields) (issuer client_id : Option Text)
    → f.issuer ≡ issuer
    → f.client_id ≡ client_id
    → oidc_of env f issuer client_id ≡ set none
    → IsPlain f
IsPlain-of_fields env f none none i d h = (i, d, by_secret f.secret_file h)
  where
    by_secret :
        (o : Option Text)
        → ◌≡◌ {A = Setting (Option OidcConfig)}
            (if is_none o then set none else refused (partial_fields env f))
            (set none)
        → o ≡ none
    by_secret none e = refl
    by_secret (some x) e = cc
IsPlain-of_fields env f none (some client_id) i d h = cc
IsPlain-of_fields env f (some issuer) none i d h = cc
IsPlain-of_fields env f (some issuer) (some client_id) i d h =
    absurd (with_secret-some env issuer client_id (or f.secret_file env.credential_secret_path) h)

pub resolve_merged :
    (env : Environment) (cli file : OidcFields) (c : OidcConfig)
    → ((resolve_oidc env cli file ≡ set (some c)) ↔ IsLogin env (merged_fields cli file) c)
      × ((resolve_oidc env cli file ≡ set none) ↔ IsPlain (merged_fields cli file))
unfolding resolve_oidc
resolve_merged env cli file c =
    let f = merged_fields cli file in
    (
      (
        λ h. IsLogin-of_fields env f f.issuer f.client_id c refl refl h,
        λ (i, d, (path, e, (text, read, is_trim))).
            ap (oidc_of env f f.issuer) d
            ∙ ap (λ o. oidc_of env f o (some c.client_id)) i
            ∙ secret_of_login env (or f.secret_file env.credential_secret_path) c path text e read
                is_trim,
      ),
      (
        λ h. IsPlain-of_fields env f f.issuer f.client_id refl refl h,
        λ (i, d, e).
            ap (oidc_of env f f.issuer) d
            ∙ ap (λ o. oidc_of env f o none) i
            ∙ ap (λ o. if is_none o then set none else refused (partial_fields env f)) e,
      ),
    )
