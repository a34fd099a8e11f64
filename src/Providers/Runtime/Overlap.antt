-- ===== src/Providers/Runtime/Overlap.antt =====
-- Calls that overlap (crates/homebot-providers/src/runtime.rs): `start` and `resume` release the table
-- while they await the adapter, so other calls run between their two parts.
use mathlib.Core.Option
use home_bot.Common.{◌≡◌, refl, ◌∙◌, none, some, [], ◌∷◌, arith, ℕ, ok, err, Result, ==_iff}
use home_bot.Common.HashMap.{HashMap, get, remove, get-remove, nat_eq, get-insert, insert}
use home_bot.Providers.Contracts.{ProviderAdapter, ProviderAdapterId, ProviderError, ProviderRun}
use home_bot.Providers.Runtime.Defs.{
  ProviderRuntime, empty, register, begin, ProviderRuntimeError, settle, finish, reserve_operation,
}

-- A call of `start` or `resume`: it waits for its adapter, or has returned the run.
pub data Phase : Type 0 where
  waiting running : Phase

pub record Call : Type 0 where
  pub adapter_id : ProviderAdapterId
  pub phase : Phase

-- Each operation stands once.
abbrev pub Distinct : HashMap ℕ Call → Type 0
Distinct [] = Unit {0}
Distinct ((k, id) ∷ m) = (get k m ≡ none) × Distinct m

Distinct-remove : (k : ℕ) (m : HashMap ℕ Call) → Distinct m → Distinct (remove k m)
unfolding remove
Distinct-remove k [] h = tt
Distinct-remove k ((j, id) ∷ m) h = ground (arith, Distinct-remove k m h.1, get-remove k j m, h.0)

module _ (Json : Type 0) where
  -- The runtime, and the operations of the calls that wait for an adapter or whose run has not
  -- finished. The list follows what the calls return, not what the table of the runtime holds.
  pub record World : Type 0 where
    pub runtime : ProviderRuntime Json
    pub calls : HashMap ℕ Call

module _ {Json : Type 0} where
  -- The steps of overlapping calls. A call begins, and later its adapter answers, once. `finish` is
  -- called for a run that has been returned, or for an operation that is not under way, but not for a
  -- call that still waits for its adapter: crates/homebot-server/src/provider_turn.rs calls it only
  -- once `start` or `resume` has returned.
  pub data Step : World Json → World Json → Type 0 where
    registers :
        (w : World Json) (a : ProviderAdapter Json)
        → Step w (record w { runtime = (register w.runtime a).0 })
    refuses :
        (w : World Json) (id : ProviderAdapterId) (operation : ℕ) (e : ProviderRuntimeError)
        → (begin w.runtime id operation).1 ≡ err e
        → Step w (record w { runtime = (begin w.runtime id operation).0 })
    begins :
        (w : World Json) (id : ProviderAdapterId) (operation : ℕ) (a : ProviderAdapter Json)
        → (begin w.runtime id operation).1 ≡ ok a
        → Step w (record {
          runtime = (begin w.runtime id operation).0;
          calls = (operation, record { adapter_id = id; phase = waiting }) ∷ w.calls;
        })
    runs :
        (w : World Json) (id : ProviderAdapterId) (operation : ℕ)
        (answer : Result ProviderError ProviderRun) (run : ProviderRun)
        → get operation w.calls ≡ some (record { adapter_id = id; phase = waiting })
        → (settle w.runtime operation answer).1 ≡ ok run
        → Step w (record {
          runtime = (settle w.runtime operation answer).0;
          calls =
              (operation, record { adapter_id = id; phase = running }) ∷ remove operation w.calls;
        })
    fails :
        (w : World Json) (id : ProviderAdapterId) (operation : ℕ)
        (answer : Result ProviderError ProviderRun) (e : ProviderRuntimeError)
        → get operation w.calls ≡ some (record { adapter_id = id; phase = waiting })
        → (settle w.runtime operation answer).1 ≡ err e
        → Step w (record {
          runtime = (settle w.runtime operation answer).0;
          calls = remove operation w.calls;
        })
    finishes :
        (w : World Json) (id : ProviderAdapterId) (operation : ℕ)
        → get operation w.calls ≡ some (record { adapter_id = id; phase = running })
        → Step w (record { runtime = finish w.runtime operation; calls = remove operation w.calls })
    finishes_unknown :
        (w : World Json) (operation : ℕ)
        → get operation w.calls ≡ none
        → Step w (record w { runtime = finish w.runtime operation })

  pub data Reach : World Json → Type 0 where
    start : Reach (record { runtime = empty; calls = [] })
    next : {v w : World Json} → Reach v → Step v w → Reach w

  -- The table holds the calls under way, each under the adapter that it named, and no operation is
  -- under way twice.
  pub record IsOwned (w : World Json) : Type 0 where
    pub same :
        (j : ℕ) → get j w.runtime.operations ≡ Option.map (λ call. call.adapter_id) (get j w.calls)
    pub distinct : Distinct w.calls

  register-operations :
      (r : ProviderRuntime Json) (a : ProviderAdapter Json)
      → (register r a).0.operations ≡ r.operations
  unfolding register
  register-operations r a = ground arith

  begin-err :
      (r : ProviderRuntime Json) (id : ProviderAdapterId) (operation : ℕ) {e : ProviderRuntimeError}
      → (begin r id operation).1 ≡ err e
      → (begin r id operation).0.operations ≡ r.operations
  unfolding begin reserve_operation
  begin-err r id operation h = ground arith

  begin-ok :
      (r : ProviderRuntime Json) (id : ProviderAdapterId) (operation : ℕ) {a : ProviderAdapter Json}
      → (begin r id operation).1 ≡ ok a
      → (get operation r.operations ≡ none)
        × ((begin r id operation).0.operations ≡ insert operation id r.operations)
  unfolding begin reserve_operation
  begin-ok r id operation h = (ground arith, ground arith)

  settle-ok :
      (r : ProviderRuntime Json) (operation : ℕ) (answer : Result ProviderError ProviderRun)
      {run : ProviderRun}
      → (settle r operation answer).1 ≡ ok run
      → (settle r operation answer).0.operations ≡ r.operations
  unfolding settle
  settle-ok r operation (ok run) h = ground arith
  settle-ok r operation (err e) h = absurd (cc)

  settle-err :
      (r : ProviderRuntime Json) (operation : ℕ) (answer : Result ProviderError ProviderRun)
      {e : ProviderRuntimeError}
      → (settle r operation answer).1 ≡ err e
      → (settle r operation answer).0.operations ≡ remove operation r.operations
  unfolding settle
  settle-err r operation (ok run) h = ground arith
  settle-err r operation (err e) h = refl

  removed :
      (w : World Json) (operation j : ℕ)
      → IsOwned w
      → get j (remove operation w.runtime.operations)
        ≡ Option.map (λ call. call.adapter_id) (get j (remove operation w.calls))
  removed w operation j h =
      ground (
        arith,
        get-remove operation j w.runtime.operations,
        get-remove operation j w.calls,
        h.same j,
      )

  owned_none :
      (w : World Json) (operation : ℕ)
      → IsOwned w
      → get operation w.runtime.operations ≡ none
      → get operation w.calls ≡ none
  owned_none w operation h free = ground (arith, h.same operation)

  Step-IsOwned : {v w : World Json} → Step v w → IsOwned v → IsOwned w
  unfolding finish
  Step-IsOwned (registers w a) h = record {
    same = λ j. rw (register-operations w.runtime a) (h.same j);
    distinct = h.distinct;
  }
  Step-IsOwned (refuses w id operation e p) h = record {
    same = λ j. rw (begin-err w.runtime id operation p) (h.same j);
    distinct = h.distinct;
  }
  Step-IsOwned (begins w id operation a p) h =
      let (free, entered) = begin-ok w.runtime id operation p in
      record {
        same = λ j.
            rw (entered, get-insert operation j id w.runtime.operations, h.same j)
              (unfold get in ground arith);
        distinct = (owned_none w operation h free, h.distinct);
      }
  Step-IsOwned (runs w id operation answer run o p) h = record {
    same = λ j.
        rw (settle-ok w.runtime operation answer p, h.same j)
          (unfold get in ground (arith, o, get-remove operation j w.calls, ==_iff operation j));
    distinct = (
      get-remove operation operation w.calls ∙ ground (arith, ==_iff operation operation),
      Distinct-remove operation w.calls h.distinct,
    );
  }
  Step-IsOwned (fails w id operation answer e o p) h = record {
    same = λ j. rw (settle-err w.runtime operation answer p) (removed w operation j h);
    distinct = Distinct-remove operation w.calls h.distinct;
  }
  Step-IsOwned (finishes w id operation o) h = record {
    same = λ j. removed w operation j h;
    distinct = Distinct-remove operation w.calls h.distinct;
  }
  Step-IsOwned (finishes_unknown w operation o) h = record {
    same = λ j.
        removed w operation j h
        ∙ ground (arith, o, get-remove operation j w.calls, ==_iff operation j);
    distinct = h.distinct;
  }

  -- However calls of `start`, `resume`, `register` and `finish` overlap, as long as `finish` is not
  -- called for an operation whose `start` or `resume` still waits for its adapter, the table of
  -- operations holds, at every point, each call that waits for its adapter and each run that was
  -- returned and has not been finished, under the adapter that it named, and nothing else; and no
  -- operation is under way twice.
  pub Reach-IsOwned : {w : World Json} → Reach w → IsOwned w
  unfolding empty get
  Reach-IsOwned start = record { same = λ j. refl; distinct = tt }
  Reach-IsOwned (next r st) = Step-IsOwned st (Reach-IsOwned r)
