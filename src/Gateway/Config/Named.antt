-- ===== src/Gateway/Config/Named.antt =====
-- What an error of the configuration says, and when there is none.
use nexus_scout.Base.{
  subst, sym, ap, ◌≡◌, refl, true, false, Option, none, some, Bytes, if◌then◌else◌, Bool-cases, inl,
  inr,
}
use nexus_scout.Gateway.Config.{
  Config, Environment, is_blank, or_bad_config, parse_value, parse_env, or_slot, parse_env_into,
  ◌>>=◌, limits_env, http_limits_env, apply_env,
}
use nexus_scout.Gateway.Errors.{Error, new_error, bad_config}
use nexus_scout.Gateway.Limits.{Limits, HttpLimits}
use nexus_scout.Gateway.Shaper.{Outcome, ok, err}

value-blank :
    {A : Type 0} (parse : Bytes → Option A) (key : Bytes) (slot : A) (v : Bytes)
    → is_blank v ≡ true
    → or_slot slot (parse_value parse key (some v)) ≡ ok slot
value-blank parse key slot v h =
    ap (λ b. or_slot slot (if b then ok none else or_bad_config key (parse v))) h

value-there :
    {A : Type 0} (parse : Bytes → Option A) (key : Bytes) (slot : A) (v : Bytes)
    → is_blank v ≡ false
    → or_slot slot (parse_value parse key (some v)) ≡ or_slot slot (or_bad_config key (parse v))
value-there parse key slot v h =
    ap (λ b. or_slot slot (if b then ok none else or_bad_config key (parse v))) h

module _ (env : Environment) where
  -- An error names a variable that is set, and not blank.
  abbrev pub IsNamed : {A : Type 0} → Outcome A Error → Type 0
  IsNamed (ok a) = Unit
  IsNamed (err e) =
      (key : Bytes) × (v : Bytes) × (env key ≡ some v)
      × (is_blank v ≡ false)
      × (e ≡ new_error (bad_config key))

  bind-IsNamed :
      {A B : Type 0} (o : Outcome A Error) (rest : A → Outcome B Error)
      → IsNamed o
      → ((a : A) → IsNamed (rest a))
      → IsNamed (o >>= rest)
  bind-IsNamed (ok a) rest h k = k a
  bind-IsNamed (err e) rest h k = h

  parsed-IsNamed :
      {A : Type 0} (key : Bytes) (slot : A) (v : Bytes) (o : Option A)
      → env key ≡ some v
      → is_blank v ≡ false
      → IsNamed (or_slot slot (or_bad_config key o))
  parsed-IsNamed key slot v none e there = (key, v, e, there, refl)
  parsed-IsNamed key slot v (some a) e there = tt

  value-IsNamed :
      {A : Type 0} (parse : Bytes → Option A) (key : Bytes) (slot : A) (found : Option Bytes)
      → env key ≡ found
      → IsNamed (or_slot slot (parse_value parse key found))
  value-IsNamed parse key slot none e = tt
  value-IsNamed parse key slot (some v) e = elim (Bool-cases (is_blank v)) [
    | inl blank ↦ subst IsNamed (sym (value-blank parse key slot v blank)) tt
    | inr there ↦
        subst IsNamed (sym (value-there parse key slot v there))
          (parsed-IsNamed key slot v (parse v) e there)
  ]

  pub parse_env_into-IsNamed :
      {A : Type 0} (parse : Bytes → Option A) (key : Bytes) (slot : A)
      → IsNamed (parse_env_into parse env key slot)
  unfolding parse_env_into parse_env
  parse_env_into-IsNamed parse key slot = value-IsNamed parse key slot (env key) refl

  limits_env-IsNamed : (l : Limits) → IsNamed (limits_env env l)
  unfolding limits_env
  limits_env-IsNamed l = bind-IsNamed _ _ (parse_env_into-IsNamed _ _ _) (λ _.
      bind-IsNamed _ _ (parse_env_into-IsNamed _ _ _) (λ _.
        bind-IsNamed _ _ (parse_env_into-IsNamed _ _ _) (λ _.
          bind-IsNamed _ _ (parse_env_into-IsNamed _ _ _) (λ _.
            bind-IsNamed _ _ (parse_env_into-IsNamed _ _ _) (λ _.
              bind-IsNamed _ _ (parse_env_into-IsNamed _ _ _) (λ _.
                bind-IsNamed _ _ (parse_env_into-IsNamed _ _ _)
                  (λ _. bind-IsNamed _ _ (parse_env_into-IsNamed _ _ _) (λ _. tt))))))))

  http_limits_env-IsNamed : (h : HttpLimits) → IsNamed (http_limits_env env h)
  unfolding http_limits_env
  http_limits_env-IsNamed h = bind-IsNamed _ _ (parse_env_into-IsNamed _ _ _) (λ _.
      bind-IsNamed _ _ (parse_env_into-IsNamed _ _ _) (λ _.
        bind-IsNamed _ _ (parse_env_into-IsNamed _ _ _)
          (λ _. bind-IsNamed _ _ (parse_env_into-IsNamed _ _ _) (λ _. tt))))

  -- If the environment is refused by `apply_env`, the error is one of the configuration, and names a
  -- variable that is set to a value that is not blank.
  pub apply_env-IsNamed :
      {Address : Type 0} (parse_address : Bytes → Option Address) (c : Config Address)
      → IsNamed (apply_env env parse_address c)
  unfolding apply_env
  apply_env-IsNamed parse_address c = bind-IsNamed _ _ (parse_env_into-IsNamed _ _ _) (λ _.
      bind-IsNamed _ _ (limits_env-IsNamed c.limits) (λ _.
        bind-IsNamed _ _ (parse_env_into-IsNamed _ _ _) (λ _.
          bind-IsNamed _ _ (http_limits_env-IsNamed c.http_limits) (λ _.
            bind-IsNamed _ _ (parse_env_into-IsNamed _ _ _) (λ _.
              bind-IsNamed _ _ (parse_env_into-IsNamed _ _ _) (λ _.
                bind-IsNamed _ _ (parse_env_into-IsNamed _ _ _)
                  (λ _. bind-IsNamed _ _ (parse_env_into-IsNamed _ _ _) (λ _. tt))))))))
