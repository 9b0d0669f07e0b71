-- ===== src/PendingCalls/History.antt =====
-- Any history of the registry: no pending call is lost, and none is handed out twice.
use ocpp_simulator.Base.{
  ℕ, ◌≡◌, refl, sym, ◌⊎◌, String, ◌==◌, eq_iff, List, [], ◌∷◌, ◌++◌, Option, none, some, arith,
  Option-cases, map, Bool-cases, inl, inr,
}
use mathlib.Core.List.{Perm, perm_middle, perm_append_comm, append_assoc, append-nil}
use mathlib.Core.List.Perm
use ocpp_simulator.Base.Assoc.{Assoc, lookup, insert, remove, Keyed, remove-absent, Keyed-remove}
use ocpp_simulator.PendingCalls.{PendingCall, is_expired, register_call, resolve, expired}

pub data Operation : Type 0 where
  registers : PendingCall → Operation
  resolves : String → Operation
  expires : (PendingCall → ℕ) → Operation

abbrev one_or_none : Option PendingCall → List PendingCall
one_or_none none = []
one_or_none (some c) = c ∷ []

-- The calls that a history hands out, and what it leaves.
unfoldable pub step : Operation → Assoc PendingCall → List PendingCall × Assoc PendingCall
step (registers c) calls = ([], register_call c calls)
step (resolves id) calls = let (answer, left) = resolve id calls in (one_or_none answer, left)
step (expires now) calls = expired now calls

unfoldable pub run : List Operation → Assoc PendingCall → List PendingCall × Assoc PendingCall
unfolding step
run [] calls = ([], calls)
run (op ∷ ops) calls =
    let (out, left) = step op calls in let (later, rest) = run ops left in (out ++ later, rest)

abbrev pub registered : Operation → List PendingCall
registered (registers c) = c ∷ []
registered _ = []

abbrev pub all_registered : List Operation → List PendingCall
all_registered [] = []
all_registered (op ∷ ops) = registered op ++ all_registered ops

abbrev pub values : Assoc PendingCall → List PendingCall
values calls = map (λ e. e.1) calls

-- A registration is under an id that is not pending.
abbrev pub IsFresh : Operation → Assoc PendingCall → Type 0
IsFresh (registers c) calls = lookup c.unique_id calls ≡ none
IsFresh _ calls = Unit

abbrev pub AllFresh : List Operation → Assoc PendingCall → Type 0
AllFresh [] calls = Unit
AllFresh (op ∷ ops) calls = IsFresh op calls × AllFresh ops (step op calls).1

-- What is resolved leaves the table, and nothing else does.
remove-Perm :
    (id : String) (c : PendingCall) (calls : Assoc PendingCall)
    → Keyed calls
    → lookup id calls ≡ some c
    → Perm (values calls) (c ∷ values (remove id calls))
unfolding lookup remove
remove-Perm id c [] keyed found = cc
remove-Perm id c ((j, d) ∷ calls) (absent, keyed) found = elim (Bool-cases (j == id)) [
  | inl same ↦
      let first : some d ≡ some c = rw same at found in
      let gone : lookup id calls ≡ none = ground (arith, eq_iff j id) in
      let own : d ≡ c = cc in rw (same, remove-absent id calls gone, own) Perm.rfl
  | inr other ↦ rw other (
      Perm.trans (Perm.cons d (remove-Perm id c calls keyed (rw other at found)))
        (Perm.swap c d (values (remove id calls))))
]

kept-absent :
    (now : PendingCall → ℕ) (id : String) (calls : Assoc PendingCall)
    → lookup id calls ≡ none
    → lookup id (expired now calls).1 ≡ none
unfolding expired lookup
kept-absent now id [] absent = refl
kept-absent now id ((j, c) ∷ calls) absent = ground (arith, kept-absent now id calls)

expired-Keyed :
    (now : PendingCall → ℕ) (calls : Assoc PendingCall) → Keyed calls → Keyed (expired now calls).1
unfolding expired
expired-Keyed now [] h = tt
expired-Keyed now ((j, c) ∷ calls) (absent, h) = elim (Bool-cases (is_expired (now c) c)) [
  | inl late ↦ rw late (expired-Keyed now calls h)
  | inr waits ↦ rw waits (kept-absent now j calls absent, expired-Keyed now calls h)
]

expired-Perm :
    (now : PendingCall → ℕ) (calls : Assoc PendingCall)
    → Perm (values calls) ((expired now calls).0 ++ values (expired now calls).1)
unfolding expired
expired-Perm now [] = Perm.rfl
expired-Perm now ((j, c) ∷ calls) = elim (Bool-cases (is_expired (now c) c)) [
  | inl late ↦ rw late (Perm.cons c (expired-Perm now calls))
  | inr waits ↦ rw waits (
      Perm.trans (Perm.cons c (expired-Perm now calls))
        (Perm.symm (perm_middle (expired now calls).0 (values (expired now calls).1))))
]

resolve-cases :
    (id : String) (calls : Assoc PendingCall)
    → (resolve id calls ≡ (none, calls))
      ⊎ ((c : PendingCall) × (lookup id calls ≡ some c)
          × (resolve id calls ≡ (some c, remove id calls)))
unfolding resolve
resolve-cases id calls = elim (Option-cases (lookup id calls)) [
  | inl unknown ↦ inl (rw (unknown, resolve) refl)
  | inr (c, found) ↦ inr (c, found, rw (found, resolve) refl)
]

step-Keyed :
    (op : Operation) (calls : Assoc PendingCall)
    → Keyed calls
    → IsFresh op calls
    → Keyed (step op calls).1
unfolding step register_call insert
step-Keyed (registers c) calls keyed fresh =
    rw (remove-absent c.unique_id calls fresh) (fresh, keyed)
step-Keyed (resolves id) calls keyed fresh = elim (resolve-cases id calls) [
  | inl same ↦ rw same keyed
  | inr (c, found, taken) ↦ rw taken (Keyed-remove id calls keyed)
]
step-Keyed (expires now) calls keyed fresh = expired-Keyed now calls keyed

step-Perm :
    (op : Operation) (calls : Assoc PendingCall)
    → Keyed calls
    → IsFresh op calls
    → Perm (registered op ++ values calls) ((step op calls).0 ++ values (step op calls).1)
unfolding step register_call insert
step-Perm (registers c) calls keyed fresh = rw (remove-absent c.unique_id calls fresh) Perm.rfl
step-Perm (resolves id) calls keyed fresh = elim (resolve-cases id calls) [
  | inl same ↦ rw same Perm.rfl
  | inr (c, found, taken) ↦ rw taken (remove-Perm id c calls keyed found)
]
step-Perm (expires now) calls keyed fresh = expired-Perm now calls

exchange : (xs ys zs : List PendingCall) → Perm (xs ++ (ys ++ zs)) (ys ++ (xs ++ zs))
exchange xs ys zs =
    rw (sym (append_assoc xs ys zs), sym (append_assoc ys xs zs))
      (Perm.append_right zs (perm_append_comm xs ys))

run-Perm :
    (ops : List Operation) (calls : Assoc PendingCall)
    → Keyed calls
    → AllFresh ops calls
    → Perm (all_registered ops ++ values calls) ((run ops calls).0 ++ values (run ops calls).1)
unfolding run
run-Perm [] calls keyed fresh = Perm.rfl
run-Perm (op ∷ ops) calls keyed (new, fresh) =
    let left = (step op calls).1 in
    let out = (step op calls).0 in
    let later = run-Perm ops left (step-Keyed op calls keyed new) fresh in
    rw
      (
        append_assoc (registered op) (all_registered ops) (values calls),
        append_assoc out (run ops left).0 (values (run ops left).1),
      )
      (Perm.trans (exchange (registered op) (all_registered ops) (values calls)) (
        Perm.trans (Perm.append_left (all_registered ops) (step-Perm op calls keyed new)) (
          Perm.trans (exchange (all_registered ops) out (values left))
            (Perm.append_left out later))))

-- Over any history from an empty registry in which each registration is under an id that is not
-- pending, the calls that Resolve and Expired hand out and those that still wait are together,
-- each as often, the calls that were registered.
pub run-empty :
    (ops : List Operation)
    → AllFresh ops []
    → Perm (all_registered ops) ((run ops []).0 ++ values (run ops []).1)
run-empty ops fresh = rw (sym (append-nil (all_registered ops))) (run-Perm ops [] tt fresh)
