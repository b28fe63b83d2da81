-- ===== src/Pki/Certificate.antt =====
-- `generate_identity` of src/pki.rs: a key and a certificate that it signs itself.
use malleus.Base.{ℕ, Bool, false, ◌*◌, ◌++◌}
use malleus.Base.Text.{Text, codes}
use malleus.Base.FilePath.{FilePath}
use malleus.Base.Result.{Result, ok, map_err, ◌>>=◌}
use malleus.Base.Fs.{IoError}

abbrev pub validity_days : ℕ
validity_days = 3650

pub record IdentityMaterial : Type 0 where
  pub cert_pem : Text
  pub key_pem : Text

pub data PkiError : Type 0 where
  io : IoError → PkiError
  incomplete_material : FilePath → PkiError
  invalid_subject : Text → Text → PkiError
  certificate_generation : Text → PkiError

-- The types and functions of the `p256` and `x509_cert` crates that the program calls. A key and
-- a validity depend on what is drawn from outside: the system's randomness and its clock.
pub record Certificates : Type 1 where
  pub SigningKey : Type 0
  pub Name : Type 0
  pub Profile : Type 0
  pub Validity : Type 0
  pub PublicKey : Type 0
  pub Builder : Type 0
  pub Certificate : Type 0
  pub Error : Type 0
  pub error_text : Error → Text
  pub generate : ℕ → SigningKey
  pub name_from_str : Text → Result Error Name
  pub root_profile : Bool → Name → Result Error Profile
  pub from_now : ℕ → ℕ → Result Error Validity
  pub from_key : SigningKey → Result Error PublicKey
  pub new_builder : Profile → ℕ → Validity → PublicKey → Result Error Builder
  pub build : Builder → SigningKey → Result Error Certificate
  pub to_pem : Certificate → Result Error Text
  pub to_pkcs8_pem : SigningKey → Result Error Text

module _ (lib : Certificates) where
  open lib use {
    SigningKey, Name, Error, error_text, generate, name_from_str, root_profile, from_now, from_key,
    new_builder, build, to_pem, to_pkcs8_pem,
  }

  unfoldable pub subject : Text → Result PkiError Name
  subject common_name =
      let text = codes "CN=" ++ (common_name ++ codes ",O=malleus,C=US") in
      map_err (λ e. invalid_subject text (error_text e)) (name_from_str text)

  abbrev generated : {A : Type 0} → Result Error A → Result PkiError A
  generated = map_err (λ e. certificate_generation (error_text e))

  -- `generate_identity` behind the drawing of the key, at a reading of the clock.
  unfoldable pub certify : Text → ℕ → ℕ → SigningKey → Result PkiError IdentityMaterial
  unfolding subject
  certify common_name serial clock signing_key = do
    name ← subject common_name
    profile ← generated (root_profile false name)
    validity ← generated (from_now clock (60 * 60 * 24 * validity_days))
    public_key ← generated (from_key signing_key)
    builder ← generated (new_builder profile serial validity public_key)
    cert ← generated (build builder signing_key)
    cert_text ← generated (to_pem cert)
    key_text ← generated (to_pkcs8_pem signing_key)
    ok (record { cert_pem = cert_text; key_pem = key_text })
