-- ===== src/Core/Transactions/Steady.antt =====
-- Starts that run side by side, up to the first rollback.
mod Tests
use ocpp_simulator.Base.{
  String, ℕ, suc, ◌<◌, ◌≡◌, ◌≢◌, refl, sym, subst, ap, inl, inr, List, [], ◌∷◌, ◌++◌, Option, none,
  some, All, All-concat, All-map, AllPairs, AllPairs-concat, arith,
}
use ocpp_simulator.Result.{Error, ok, err}
use ocpp_simulator.Core.Store.{Transaction, Call, create, new_row}
use ocpp_simulator.Core.Store.Rows.{IsBelow, IsBelow-mono, create-cases}
use ocpp_simulator.Core.Transactions.{Service, StartInput, take_id, transaction_of, create_row}
use ocpp_simulator.Core.Transactions.Counter.{BothDiffer, IdsDiffer, Inv}
use ocpp_simulator.Core.Transactions.Interleaved.{Threads, Step, takes, inserts, fails, rolls_back}

module _ {A : Type 0} where
  -- Without one element of a list.
  All-take :
      (P : A → Type 0) (before after : List A) (x : A)
      → All P (before ++ (x ∷ after))
      → P x × All P (before ++ after)
  All-take P [] after x h = h
  All-take P (y ∷ before) after x (p, h) =
      let (q, rest) = All-take P before after x h in (q, (p, rest))

  AllPairs-take :
      (R : A → A → Type 0) (before after : List A) (x : A)
      → ((y z : A) → R y z → R z y)
      → AllPairs R (before ++ (x ∷ after))
      → All (R x) (before ++ after) × AllPairs R (before ++ after)
  AllPairs-take R [] after x symmetric h = h
  AllPairs-take R (y ∷ before) after x symmetric (hy, h) =
      let (ryx, rest) = All-take (R y) before after x hy in
      let (hx, pairs) = AllPairs-take R before after x symmetric h in
      ((symmetric y x ryx, hx), (rest, pairs))

abbrev Started : Type 0
Started = StartInput × ℕ

abbrev HeldApart : Started → Started → Type 0
HeldApart f g = f.1 ≢ g.1

-- A stored row and a start that waits for its INSERT.
abbrev StoredApart : Started → Transaction → Type 0
StoredApart f row = BothDiffer row.numeric_id (some f.1)

-- All ids, of the rows and of the starts that wait for their INSERT, lie below the counter, and no two
-- of them are the same.
pub record IsApart (t : Threads) : Type 0 where
  pub rows_below : All (λ row. IsBelow t.service.next_id row.numeric_id) t.service.rows
  pub held_below : All (λ f. f.1 < t.service.next_id) t.inflight
  pub rows_apart : AllPairs IdsDiffer t.service.rows
  pub held_apart : AllPairs HeldApart t.inflight
  pub stored_apart : All (λ row. All (λ f. StoredApart f row) t.inflight) t.service.rows

-- Any steps but a rollback.
abbrev IsForward : {t u : Threads} → Step t u → Type 0
IsForward (rolls_back t n before after failed) = ⊥
IsForward _ = Unit

pub data Forward (s : Threads) : Threads → Type 0 where
  here : Forward s s
  next : {t u : Threads} → Forward s t → (step : Step t u) → IsForward step → Forward s u

IsBelow-differ : (n : ℕ) (o : Option ℕ) → IsBelow n o → BothDiffer o (some n)
IsBelow-differ n none below = tt
IsBelow-differ n (some m) below = λ same. omega arith

takes-IsApart :
    (t : Threads) (input : StartInput)
    → IsApart t
    → IsApart (record t {
      service = (take_id t.service).1;
      inflight = (input, (take_id t.service).0) ∷ t.inflight;
    })
unfolding take_id
takes-IsApart t input v =
    let n = t.service.next_id in
    record {
      rows_below =
          All-map (λ row. IsBelow n row.numeric_id) (λ row. IsBelow (suc n) row.numeric_id)
            t.service.rows (λ row. IsBelow-mono n (suc n) row.numeric_id (omega arith))
            v.rows_below;
      held_below = (
        omega arith,
        All-map (λ f. f.1 < n) (λ f. f.1 < suc n) t.inflight (λ f below. omega arith) v.held_below,
      );
      rows_apart = v.rows_apart;
      held_apart = (
        All-map (λ f. f.1 < n) (HeldApart (input, n)) t.inflight (λ f below same. omega arith)
            v.held_below,
        v.held_apart,
      );
      stored_apart = both t.service.rows v.rows_below v.stored_apart;
    }
  where
    both :
        (rows : List Transaction)
        → All (λ row. IsBelow t.service.next_id row.numeric_id) rows
        → All (λ row. All (λ f. StoredApart f row) t.inflight) rows
        → All (λ row. All (λ f. StoredApart f row) ((input, t.service.next_id) ∷ t.inflight)) rows
    both [] _ _ = tt
    both (row ∷ rows) (below, belows) (apart, aparts) =
        ((IsBelow-differ t.service.next_id row.numeric_id below, apart), both rows belows aparts)

-- The end of an INSERT takes a start out; a row more carries its id.
module _ (t : Threads) (input : StartInput) (n : ℕ) (before after : List Started)
    (waits : t.inflight ≡ before ++ ((input, n) ∷ after)) (v : IsApart t) where
  taken : (failed : List ℕ) → IsApart (record t { inflight = before ++ after; failed = failed })
  taken failed = record {
    rows_below = v.rows_below;
    held_below =
        (All-take (λ f. f.1 < t.service.next_id) before after (input, n)
          (subst (All (λ f. f.1 < t.service.next_id)) waits v.held_below)).1;
    rows_apart = v.rows_apart;
    held_apart =
        (AllPairs-take HeldApart before after (input, n) (λ y z apart same. apart (sym same))
          (subst (AllPairs HeldApart) waits v.held_apart)).1;
    stored_apart =
        All-map (λ row. All (λ f. StoredApart f row) t.inflight)
          (λ row. All (λ f. StoredApart f row) (before ++ after)) t.service.rows
          (λ row apart.
            (All-take (λ f. StoredApart f row) before after (input, n)
              (subst (All (λ f. StoredApart f row)) waits apart)).1)
          v.stored_apart;
  }

  stored :
      (row : Transaction)
      → row.numeric_id ≡ some n
      → IsApart (record t {
        service = record t.service { rows = t.service.rows ++ (row ∷ []) };
        inflight = before ++ after;
      })
  stored row numbered =
      let left = taken t.failed in
      record {
        rows_below =
            All-concat (λ r. IsBelow t.service.next_id r.numeric_id) t.service.rows row v.rows_below
              (subst (IsBelow t.service.next_id) (sym numbered)
                (All-take (λ f. f.1 < t.service.next_id) before after (input, n)
                  (subst (All (λ f. f.1 < t.service.next_id)) waits v.held_below)).0);
        held_below = left.held_below;
        rows_apart = AllPairs-concat IdsDiffer t.service.rows row v.rows_apart (
            All-map (λ r. All (λ f. StoredApart f r) t.inflight) (λ r. IdsDiffer r row)
              t.service.rows
              (λ r apart.
                subst (BothDiffer r.numeric_id) (sym numbered)
                  (All-take (λ f. StoredApart f r) before after (input, n)
                    (subst (All (λ f. StoredApart f r)) waits apart)).0)
              v.stored_apart);
        held_apart = left.held_apart;
        stored_apart =
            All-concat (λ r. All (λ f. StoredApart f r) (before ++ after)) t.service.rows row
              left.stored_apart
              (subst (λ o. All (λ f. BothDiffer o (some f.1)) (before ++ after)) (sym numbered)
                (AllPairs-take HeldApart before after (input, n)
                  (λ y z apart same. apart (sym same))
                  (subst (AllPairs HeldApart) waits v.held_apart)).0);
      }

  inserted :
      (call : Call) (id : String)
      → (create_row call input n t.service).0 ≡ ok id
      → IsApart
          (record t { service = (create_row call input n t.service).1; inflight = before ++ after })
  unfolding create_row
  inserted call id works = elim (create-cases call (transaction_of input n) t.service.rows) [
    | inl (_, e) ↦ rw e (stored (new_row call (transaction_of input n)) refl)
    | inr (e, failed) ↦ rw failed (taken t.failed)
  ]

  refused :
      (call : Call) (e : Error)
      → (create_row call input n t.service).0 ≡ err e
      → IsApart (record t {
        service = (create_row call input n t.service).1;
        inflight = before ++ after;
        failed = n ∷ t.failed;
      })
  unfolding create_row
  refused call e failing = elim (create-cases call (transaction_of input n) t.service.rows) [
    | inl (_, works) ↦ (let answered = rw works at failing in cc)
    | inr (e', failed) ↦ rw failed (taken (n ∷ t.failed))
  ]

Step-IsApart : {t u : Threads} (step : Step t u) → IsForward step → IsApart t → IsApart u
Step-IsApart (takes t input) _ v = takes-IsApart t input v
Step-IsApart (inserts t call input n id before after waits works) _ v =
    inserted t input n before after waits v call id works
Step-IsApart (fails t call input n e before after waits failed) _ v =
    refused t input n before after waits v call e failed
Step-IsApart (rolls_back t n before after failed) forward v = absurd forward

-- However starts interleave from a service whose stored ids are below the counter and not shared, until
-- the first rollback: the ids of the rows and of the starts that wait for their INSERT are below the
-- counter, and no two of them are the same, whatever the charge points.
pub Forward-IsApart :
    (s : Service) {t : Threads}
    → Inv s
    → Forward (record { service = s; inflight = []; failed = [] }) t
    → IsApart t
Forward-IsApart s v here = record {
  rows_below = v.below;
  held_below = tt;
  rows_apart = v.distinct;
  held_apart = tt;
  stored_apart =
      All-map (λ row. IsBelow s.next_id row.numeric_id) (λ row. Unit) s.rows (λ _ _. tt) v.below;
}
Forward-IsApart s v (next steps step forward) =
    Step-IsApart step forward (Forward-IsApart s v steps)
