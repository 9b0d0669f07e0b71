-- ===== src/Schemas/Cache.antt =====
-- The cache of compiled schemas changes no answer of the validator.
use Prim.Native.Nat.{ℕ}
use Prim.Native.Char.{code}
use Prim.Native.String.{◌++◌}
use text.Mathlib.TextLemmas.{
  append_cancel_left, append_cancel_right, head-eq_of_cons-eq, cons-append, nil-append,
}
use ocpp_simulator.Base.{
  String, ◌==◌, eq_iff, ◌≡◌, refl, ◌≢◌, sym, ap, ◌∙◌, inl, inr, [], some, arith, Option-cases,
  Bool-cases,
}
use ocpp_simulator.Base.Assoc.{Assoc, lookup, insert, lookup-insert}
use ocpp_simulator.Result.{ok}
use ocpp_simulator.Result.Laws.{Result-cases}
use ocpp_simulator.Json.{Bytes}
use ocpp_simulator.Schemas.{
  Version, v16, v201, other_version, Direction, request, response, direction_text, SchemaLibrary,
  cache_key, read_schema, store_schema, hit_or_load, load_schema, check_payload, validate_cached,
  validate,
}

-- The versions that the package declares; their names hold no '/'.
pub data IsDeclared : Version → Type 0 where
  v16_declared : IsDeclared v16
  v201_declared : IsDeclared v201

-- The last code of a text that is not empty.
last_code : ℕ → String → ℕ
last_code d String.[] = d
last_code d (String.◌∷◌ c s) = last_code (code c) s

last_code-append : (d : ℕ) (s t : String) → last_code d (s ++ t) ≡ last_code (last_code d s) t
unfolding last_code
last_code-append d String.[] t = rw nil-append
last_code-append d (String.◌∷◌ c s) t = rw cons-append (last_code-append (code c) s t)

same_tail :
    (a b : String) (d e : Direction)
    → a ++ ("/" ++ direction_text d) ≡ b ++ ("/" ++ direction_text e)
    → (a ≡ b) × (d ≡ e)
unfolding last_code
same_tail a b request request h = (append_cancel_right a b "/Request" h, refl)
same_tail a b response response h = (append_cancel_right a b "/Response" h, refl)
same_tail a b request response h = absurd (
    omega (
      arith,
      ap (last_code 0) h,
      last_code-append 0 a "/Request",
      last_code-append 0 b "/Response",
    ))
same_tail a b response request h = absurd (
    omega (
      arith,
      ap (last_code 0) h,
      last_code-append 0 a "/Response",
      last_code-append 0 b "/Request",
    ))

same_request :
    (version a b : String) (d e : Direction)
    → version ++ ("/" ++ (a ++ ("/" ++ direction_text d)))
      ≡ version ++ ("/" ++ (b ++ ("/" ++ direction_text e)))
    → (a ≡ b) × (d ≡ e)
same_request version a b d e h =
    same_tail a b d e (append_cancel_left "/" _ _ (append_cancel_left version _ _ h))

versions_differ : (s t : String) → "1.6" ++ s ≢ "2.0.1" ++ t
versions_differ s t h =
    let heads = sym (cons-append "1" ".6" s) ∙ (h ∙ cons-append "2" ".0.1" t) in
    absurd (omega (arith, ap code (head-eq_of_cons-eq heads)))

-- Keys of declared versions are distinct for distinct requests.
cache_key_inj :
    (v w : Version) (a b : String) (d e : Direction)
    → IsDeclared v
    → IsDeclared w
    → cache_key v a d ≡ cache_key w b e
    → (v ≡ w) × (a ≡ b) × (d ≡ e)
unfolding cache_key
cache_key_inj v16 v16 a b d e _ _ h = let (p, q) = same_request "1.6" a b d e h in (refl, p, q)
cache_key_inj v201 v201 a b d e _ _ h = let (p, q) = same_request "2.0.1" a b d e h in (refl, p, q)
cache_key_inj v16 v201 a b d e _ _ h = absurd (versions_differ _ _ h)
cache_key_inj v201 v16 a b d e _ _ h = absurd (versions_differ _ _ (sym h))
cache_key_inj (other_version s) w a b d e hv hw h = elim hv [ ]
cache_key_inj v16 (other_version s) a b d e hv hw h = elim hw [ ]
cache_key_inj v201 (other_version s) a b d e hv hw h = elim hw [ ]

module _ (library : SchemaLibrary) where
  open library use {Schema}

  -- Every cached schema is the one that a fresh read would give.
  abbrev pub IsFaithful : Assoc Schema → Type 0
  IsFaithful cache =
      (v : Version) (a : String) (d : Direction) (s : Schema)
      → IsDeclared v
      → lookup (cache_key v a d) cache ≡ some s
      → read_schema library v a d ≡ ok s

  pub empty-IsFaithful : IsFaithful []
  unfolding lookup
  empty-IsFaithful v a d s _ e = cc

  insert-IsFaithful :
      (cache : Assoc Schema) (v : Version) (a : String) (d : Direction) (s : Schema)
      → IsDeclared v
      → IsFaithful cache
      → read_schema library v a d ≡ ok s
      → IsFaithful (insert (cache_key v a d) s cache)
  insert-IsFaithful cache v a d s hv f read w b e t hw found =
      elim (Bool-cases (cache_key v a d == cache_key w b e)) [
        | inl same ↦
            let (p, q, r) = cache_key_inj v w a b d e hv hw ((eq_iff _ _).0 same) in
            let hit : some s ≡ some t = rw (lookup-insert, same) at found in
            let kept : s ≡ t = cc in rw (← p, ← q, ← r) (read ∙ ap ok kept)
        | inr other ↦ f w b e t hw (rw (lookup-insert, other) at found)
      ]

  pub load_schema-IsFaithful :
      (cache : Assoc Schema) (v : Version) (a : String) (d : Direction)
      → IsDeclared v
      → IsFaithful cache
      → ((load_schema library cache v a d).0 ≡ read_schema library v a d)
        × IsFaithful (load_schema library cache v a d).1
  unfolding load_schema hit_or_load store_schema
  load_schema-IsFaithful cache v a d hv f = elim (Option-cases (lookup (cache_key v a d) cache)) [
    | inr (s, hit) ↦ rw hit (sym (f v a d s hv hit), f)
    | inl miss ↦ elim (Result-cases (read_schema library v a d)) [
      | inl (e, refused) ↦ rw (miss, refused) (refl, f)
      | inr (s, read) ↦ rw (miss, read) (refl, insert-IsFaithful cache v a d s hv f read)
    ]
  ]

  -- From a faithful cache the validator answers as it does from an empty one, and leaves a
  -- faithful cache, for every declared version.
  pub validate_cached-IsFaithful :
      (cache : Assoc Schema) (v : Version) (a : String) (d : Direction) (payload : Bytes)
      → IsDeclared v
      → IsFaithful cache
      → ((validate_cached library cache v a d payload).0 ≡ validate library v a d payload)
        × IsFaithful (validate_cached library cache v a d payload).1
  unfolding validate_cached validate
  validate_cached-IsFaithful cache v a d payload hv f =
      let (same, f') = load_schema-IsFaithful cache v a d hv f in
      (ap (λ s. check_payload library s payload) same, f')
