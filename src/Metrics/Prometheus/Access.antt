-- ===== src/Metrics/Prometheus/Access.antt =====
-- With which authorization Prometheus is asked.
use Prim.Native.String.{◌++◌ as ◌<>◌}
use text.Mathlib.Text.{starts_with}
use text.Mathlib.TextEquality.{starts_with_iff}
use mathlib.Core.Option.{some-injective}
use neural_autoscaler.Base.{
  ◌≢◌, Option-cases, ◌≡◌, refl, sym, subst, ap, ◌∙◌, ◌↔◌, inl, inr, String, ◌==◌, eq_iff, Option,
  none, some, arith, Bool-cases,
}
use neural_autoscaler.Base.Dict.{Dict, lookup}
use neural_autoscaler.Base.Text.{trim_space}
use neural_autoscaler.Base.Result.{◌>>=◌, Result, ok, err, wrap_err}
use neural_autoscaler.Api.Types.{PrometheusSourceSpec, SecretKeySelector}
use neural_autoscaler.Metrics.Prometheus.Fetch.{
  Kube, Access, PrometheusError, bearer, token_of, resolve_bearer_token, get_auth_secret,
}

module _ {F T L S P E : Type 0} (access : Access F T L S P E) (spec : PrometheusSourceSpec) where
  -- The header for a value: the value itself if it starts with the word in lower case, and else with the
  -- word before it.
  pub data IsHeader (value : String) : String → Type 0 where
    marked :
        (rest : String) → access.texts.to_lower value ≡ "bearer " <> rest → IsHeader value value
    unmarked :
        ((rest : String) → access.texts.to_lower value ≢ "bearer " <> rest)
        → IsHeader value ("Bearer " <> value)

  bearer-IsHeader : (value : String) → IsHeader value (bearer access spec value)
  bearer-IsHeader value =
      let (there, back) = starts_with_iff (access.texts.to_lower value) "bearer " in
      elim (Bool-cases (starts_with (access.texts.to_lower value) "bearer ")) [
        | inl e ↦ rw e (let (rest, same) = there e in marked rest (sym same))
        | inr e ↦ rw e (unmarked (λ rest same. cc (back (rest, sym same), e)))
      ]

  IsHeader-eq : (value header : String) → IsHeader value header → bearer access spec value ≡ header
  IsHeader-eq value _ (marked rest e) =
      rw ((starts_with_iff (access.texts.to_lower value) "bearer ").1 (rest, sym e)) refl
  IsHeader-eq value _ (unmarked h) =
      let (there, back) = starts_with_iff (access.texts.to_lower value) "bearer " in
      elim (Bool-cases (starts_with (access.texts.to_lower value) "bearer ")) [
        | inl e ↦ let (rest, same) = there e in absurd (h rest (sym same))
        | inr e ↦ rw e refl
      ]

  -- The secret has a token that is not blank, and this is the header for it.
  abbrev pub HasToken : SecretKeySelector → String → Dict String → Type 0
  HasToken auth header secret =
      (token : String) × (lookup auth.key secret ≡ some token)
      × (trim_space token ≢ "")
      × IsHeader (trim_space token) header

  token_of_iff :
      (auth : SecretKeySelector) (o : Option String) (header : String)
      → (token_of access spec auth o ≡ ok header) ↔ (
          (token : String) × (o ≡ some token)
          × (trim_space token ≢ "")
          × IsHeader (trim_space token) header)
  token_of_iff auth none header = (λ h. cc, λ h. cc)
  token_of_iff auth (some token) header =
      let (blank, empty) = eq_iff (trim_space token) "" in
      elim (Bool-cases (trim_space token == "")) [
        | inl e ↦ rw e (
          λ h. cc,
          λ (other, same, ne, h).
              absurd (ne (ap trim_space (sym (some-injective token other same)) ∙ blank e)),
        )
        | inr e ↦ rw e (
          λ h. (
            token,
            refl,
            λ same. cc (empty same, e),
            subst (IsHeader (trim_space token)) (ground (arith, h))
                (bearer-IsHeader (trim_space token)),
          ),
          λ (other, same, ne, h).
              ap (λ t. ok (bearer access spec (trim_space t))) (some-injective token other same)
              ∙ ap ok (IsHeader-eq (trim_space other) header h),
        )
      ]

  some_of_ok :
      {A : Type 0} (m : Result (PrometheusError E) A) {a : A}
      → (do found ← m; ok (some found)) ≡ ok (some a)
      → m ≡ ok a
  some_of_ok (ok b) h = ground (arith, h)
  some_of_ok (err e) h = cc

  answered_token_iff :
      (auth : SecretKeySelector) (answer : Result E (Dict String)) (header : String)
      → ((do
        token ← (do
          secret ← wrap_err (get_auth_secret auth.name) answer
          token_of access spec auth (lookup auth.key secret))
        ok (some token))
          ≡ ok (some header))
        ↔ ((secret : Dict String) × (answer ≡ ok secret) × HasToken auth header secret)
  answered_token_iff auth (err e) header = (λ h. cc, λ h. cc)
  answered_token_iff auth (ok secret) header =
      let (one_way, other_way) = token_of_iff auth (lookup auth.key secret) header in
      (
        λ h. (
          secret,
          refl,
          one_way (some_of_ok (token_of access spec auth (lookup auth.key secret)) h),
        ),
        λ (there, same, h).
            let e : secret ≡ there = ground (arith, same) in
            rw (other_way (subst (HasToken auth header) (sym e) h)) refl,
      )

  none_of_ok :
      {A : Type 0} (m : Result (PrometheusError E) A) → (do found ← m; ok (some found)) ≢ ok none
  none_of_ok (ok b) h = cc
  none_of_ok (err e) h = cc

  -- Who a query is asked as: nobody without authentication, and else with a header, for which there is a
  -- client of Kubernetes and with it the secret.
  abbrev pub IsAuthorization :
      Option (Kube L S P E) → String → Option SecretKeySelector → Option String → Type 0
  IsAuthorization client namespace none answer = answer ≡ none
  IsAuthorization client namespace (some auth) answer =
      (kube : Kube L S P E) × (client ≡ some kube)
      × (secret : Dict String) × (kube.get_secret namespace auth.name ≡ ok secret)
      × (header : String) × (answer ≡ some header)
      × HasToken auth header secret

  authorized_iff :
      (namespace : String) (auth : SecretKeySelector) (kube : Kube L S P E) (answer : Option String)
      → ((do
        token ← (do
          secret ← wrap_err (get_auth_secret auth.name) (kube.get_secret namespace auth.name)
          token_of access spec auth (lookup auth.key secret))
        ok (some token))
          ≡ ok answer)
        ↔ IsAuthorization (some kube) namespace (some auth) answer
  authorized_iff namespace auth kube none =
      (λ h. absurd (none_of_ok _ h), λ (_, _, _, _, header, same, _). cc same)
  authorized_iff namespace auth kube (some header) =
      let (there, back) = answered_token_iff auth (kube.get_secret namespace auth.name) header in
      (
        λ h. let (secret, got, has) = there h in (kube, refl, secret, got, header, refl, has),
        λ (other, found, secret, got, given, same, has).
            let asked : other ≡ kube = some-injective other kube (sym found) in
            back (
              secret,
              ap (λ k. k.get_secret namespace auth.name) (sym asked) ∙ got,
              subst (λ t. HasToken auth t secret) (sym (some-injective header given same)) has,
            ),
      )

  -- Where no authentication is configured there is no error and no header. Where it is, there is no error
  -- exactly if there is a client of Kubernetes and the secret has a token under the key that is not
  -- blank. The header is then the token without the space around it, and `Bearer ` before it unless the
  -- lower case of that starts with `bearer `.
  pub resolve_bearer_token_iff :
      (namespace : String) (auth : Option SecretKeySelector) (answer : Option String)
      → (resolve_bearer_token access spec namespace auth ≡ ok answer)
        ↔ IsAuthorization access.kube namespace auth answer
  unfolding resolve_bearer_token
  resolve_bearer_token_iff namespace none answer = (λ h. ground (arith, h), λ h. ap ok (sym h))
  resolve_bearer_token_iff namespace (some auth) answer = elim (Option-cases access.kube) [
    | inl e ↦ simp e (λ h. cc, λ h. cc h.1)
    | inr (kube, e) ↦ simp e (authorized_iff namespace auth kube answer)
  ]
