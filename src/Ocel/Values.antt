-- ===== src/Ocel/Values.antt =====
-- The values of attributes and of the harness ledger, with Python's equality and order on them.
use ggen_igniter.Base.{
  ℕ, String, Option, none, some, Bool, true, false, ◌≡◌, refl, ◌↔◌, ap, leb, nat_beq, nat_beq_iff,
  Eq, ◌==◌, string_eq, if◌then◌else◌,
}
use ggen_igniter.Base.Sort.{str_le}

-- `negsuc n` is -(n + 1).
pub data ℤ : Type 0 where
  pos : ℕ → ℤ
  negsuc : ℕ → ℤ

pub data Value : Type 0 where
  null : Value
  int : ℤ → Value
  text : String → Value

-- The result of a `.get`, where a missing key gives `None`.
abbrev pub get_value : Option Value → Value
get_value none = null
get_value (some v) = v

abbrev pub text_or_null : Option String → Value
text_or_null none = null
text_or_null (some s) = text s

abbrev pub int_beq : ℤ → ℤ → Bool
int_beq (pos a) (pos b) = nat_beq a b
int_beq (pos a) (negsuc b) = false
int_beq (negsuc a) (pos b) = false
int_beq (negsuc a) (negsuc b) = nat_beq a b

pub int_beq_iff : (a b : ℤ) → (int_beq a b ≡ true) ↔ (a ≡ b)
int_beq_iff (pos a) (pos b) = (λ h. ap pos ((nat_beq_iff a b).0 h), λ h. (nat_beq_iff a b).1 (cc))
int_beq_iff (pos a) (negsuc b) = (λ h. (cc), λ h. (cc))
int_beq_iff (negsuc a) (pos b) = (λ h. (cc), λ h. (cc))
int_beq_iff (negsuc a) (negsuc b) =
    (λ h. ap negsuc ((nat_beq_iff a b).0 h), λ h. (nat_beq_iff a b).1 (cc))

abbrev pub value_beq : Value → Value → Bool
value_beq null null = true
value_beq (int a) (int b) = int_beq a b
value_beq (text s) (text t) = s == t
value_beq _ _ = false

pub value_beq_iff : (u v : Value) → (value_beq u v ≡ true) ↔ (u ≡ v)
value_beq_iff null null = (λ h. refl, λ h. refl)
value_beq_iff (int a) (int b) = (λ h. ap int ((int_beq_iff a b).0 h), λ h. (int_beq_iff a b).1 (cc))
value_beq_iff (text s) (text t) =
    (λ h. ap text ((string_eq.beq_iff s t).0 h), λ h. (string_eq.beq_iff s t).1 (cc))
value_beq_iff null (int b) = (λ h. (cc), λ h. (cc))
value_beq_iff null (text t) = (λ h. (cc), λ h. (cc))
value_beq_iff (int a) null = (λ h. (cc), λ h. (cc))
value_beq_iff (int a) (text t) = (λ h. (cc), λ h. (cc))
value_beq_iff (text s) null = (λ h. (cc), λ h. (cc))
value_beq_iff (text s) (int b) = (λ h. (cc), λ h. (cc))

instance abbrev pub value_eq : Eq Value
value_eq = record { beq = value_beq; beq_iff = value_beq_iff }

-- `"" if p is None else p`
abbrev pub none_as_empty : Value → Value
none_as_empty null = text ""
none_as_empty v = v

int_le : ℤ → ℤ → Bool
int_le (pos a) (pos b) = leb a b
int_le (pos a) (negsuc b) = false
int_le (negsuc a) (pos b) = true
int_le (negsuc a) (negsuc b) = leb b a

-- `u <= v` of values that have an order; the other pairs are not asked, see `comparable`.
unfoldable pub value_le : Value → Value → Bool
unfolding int_le str_le
value_le (int a) (int b) = int_le a b
value_le (text s) (text t) = str_le s t
value_le _ _ = true

-- Python orders a number and a number, and a text and a text.
unfoldable pub comparable : Value → Value → Bool
comparable (int a) (int b) = true
comparable (text s) (text t) = true
comparable _ _ = false

-- `None` is ordered with nothing, itself included, but equal components of a tuple are skipped.
abbrev pub option_le : Option String → Option String → Bool
option_le (some s) (some t) = str_le s t
option_le _ _ = true

abbrev pub option_comparable : Option String → Option String → Bool
option_comparable (some s) (some t) = true
option_comparable _ _ = false

-- The truth of a value in a test.
unfoldable pub truthy : Value → Bool
truthy null = false
truthy (int n) = if int_beq n (pos 0) then false else true
truthy (text s) = if s == "" then false else true
