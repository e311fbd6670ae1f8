-- ===== src/Error/Messages.antt =====
-- The messages of esio_strerror tell the status codes apart.
use Prim.Native.String.{String}
use text.Mathlib.Text.{◌==◌ as str_eq}
use esio.Prelude.{
  ℤ, eq_ℤ, eq_ℤ_iff, ◌≡◌, ◌⊎◌, inl, inr, refl, ap, sym, ◌∙◌, Option, none, some, if◌then◌else◌,
  Bool-cases,
}
use esio.Error.{success, efault, einval, efailed, esanity, enomem, notfound, strerror}

-- One of the values of enum esio_status.
pub data IsStatus : ℤ → Type 0 where
  is_success : IsStatus success
  is_efault : IsStatus efault
  is_einval : IsStatus einval
  is_efailed : IsStatus efailed
  is_esanity : IsStatus esanity
  is_enomem : IsStatus enomem
  is_notfound : IsStatus notfound

-- The code for a message.
decode : String → Option ℤ
decode s =
    if str_eq s "success"
    then some success
    else if str_eq s "invalid pointer"
    then some efault
    else if str_eq s "invalid argument supplied by user"
    then some einval
    else if str_eq s "generic failure"
    then some efailed
    else if str_eq s "sanity check failed - shouldn't happen"
    then some esanity
    else if str_eq s "malloc failed"
    then some enomem
    else if str_eq s "object not found"
    then some notfound
    else none

decode-status : (e : ℤ) → IsStatus e → decode (strerror e) ≡ some e
unfolding decode strerror
decode-status _ is_success = refl
decode-status _ is_efault = refl
decode-status _ is_einval = refl
decode-status _ is_efailed = refl
decode-status _ is_esanity = refl
decode-status _ is_enomem = refl
decode-status _ is_notfound = refl

same_some : {a b : ℤ} → some a ≡ some b → a ≡ b
same_some h = cc

none-ne-some : {a : ℤ} → ◌≡◌ {A = Option ℤ} none (some a) → ⊥
none-ne-some h = cc

decode-strerror : (e : ℤ) → (decode (strerror e) ≡ some e) ⊎ (decode (strerror e) ≡ none)
unfolding decode strerror
decode-strerror e = elim (Bool-cases (eq_ℤ e success)) [
  | inl same ↦ (let e' : e ≡ success = (eq_ℤ_iff e success).0 same in rw e' (inl refl))
  | inr other0 ↦ rw other0 (elim (Bool-cases (eq_ℤ e efault)) [
    | inl same ↦ (let e' : e ≡ efault = (eq_ℤ_iff e efault).0 same in rw e' (inl refl))
    | inr other1 ↦ rw other1 (elim (Bool-cases (eq_ℤ e einval)) [
      | inl same ↦ (let e' : e ≡ einval = (eq_ℤ_iff e einval).0 same in rw e' (inl refl))
      | inr other2 ↦ rw other2 (elim (Bool-cases (eq_ℤ e efailed)) [
        | inl same ↦ (let e' : e ≡ efailed = (eq_ℤ_iff e efailed).0 same in rw e' (inl refl))
        | inr other3 ↦ rw other3 (elim (Bool-cases (eq_ℤ e esanity)) [
          | inl same ↦ (let e' : e ≡ esanity = (eq_ℤ_iff e esanity).0 same in rw e' (inl refl))
          | inr other4 ↦ rw other4 (elim (Bool-cases (eq_ℤ e enomem)) [
            | inl same ↦ (let e' : e ≡ enomem = (eq_ℤ_iff e enomem).0 same in rw e' (inl refl))
            | inr other5 ↦ rw other5 (elim (Bool-cases (eq_ℤ e notfound)) [
              | inl same ↦
                  (let e' : e ≡ notfound = (eq_ℤ_iff e notfound).0 same in rw e' (inl refl))
              | inr other6 ↦ rw other6 (inr refl)
            ])
          ])
        ])
      ])
    ])
  ])
]

-- No other number has the message of a status code.
pub strerror-injective : (e other : ℤ) → IsStatus e → strerror other ≡ strerror e → other ≡ e
strerror-injective e other h same = elim (decode-strerror other) [
  | inl known ↦ same_some (sym known ∙ ap decode same ∙ decode-status e h)
  | inr unknown ↦ absurd (none-ne-some (sym unknown ∙ ap decode same ∙ decode-status e h))
]
