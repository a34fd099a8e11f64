-- ===== src/Providers/Supervisor/Spawn.antt =====
-- crates/homebot-providers/src/supervisor.rs: `spawn_child`. What each call of `Command::spawn`
-- gives is a parameter, by the number of the attempt.
use home_bot.Common.{
  ◌≡◌, refl, inl, inr, Bool, true, false, ◌&&◌, Option, none, some, ℕ, zero, suc, ◌+◌, arith,
  Result, ok, err, Result-cases, Bool-cases, ltb, if◌then◌else◌, ap, ◌∙◌, List, find, not, [], ◌∷◌,
  ◌||◌,
}
use home_bot.Common.Text.{Text}

pub data ErrorKind : Type 0 where
  executable_file_busy : ErrorKind
  other_kind : ℕ → ErrorKind

pub data SpawnError : Type 0 where
  spawn_failed : (program : Text) (source : ErrorKind) → SpawnError

unfoldable pub is_busy : ErrorKind → Bool
is_busy executable_file_busy = true
is_busy (other_kind k) = false

abbrev pub spawn_limit : ℕ
spawn_limit = 8

module _ {Child : Type 0} (spawn : ℕ → Result ErrorKind Child) (program : Text) where
  -- The loop from an attempt on, with the attempts left. `none` is its `unreachable!`.
  unfoldable pub spawn_from : (attempt left : ℕ) → Option (Result SpawnError Child)
  unfolding is_busy
  spawn_from attempt zero = none
  spawn_from attempt (suc left) =
      let next = spawn_from (suc attempt) left in
      elim (spawn attempt) [
        | ok child ↦ some (ok child)
        | err source ↦
            if is_busy source && ltb attempt spawn_limit
            then next
            else some (err (spawn_failed program source))
      ]

  unfoldable pub spawn_child : Option (Result SpawnError Child)
  unfolding spawn_from
  spawn_child = spawn_from 1 spawn_limit

  -- What an attempt's outcome is reported as.
  abbrev pub reported : Result ErrorKind Child → Result SpawnError Child
  reported (ok child) = ok child
  reported (err source) = err (spawn_failed program source)

  abbrev or_last : Option ℕ → ℕ
  or_last none = spawn_limit
  or_last (some n) = n

  abbrev is_settled : ℕ → Bool
  is_settled n = elim (spawn n) [ ok child ↦ true | err source ↦ not (is_busy source) ]

  abbrev from : (first more : ℕ) → List ℕ
  from first zero = []
  from first (suc more) = first ∷ from (suc first) more

  -- The first of the attempts 1 to 7 that was not refused as busy, or else the eighth.
  abbrev pub settling : ℕ
  settling = or_last (find is_settled (from 1 7))

  -- An attempt that is settled, or the last one, is what is returned.
  spawn_from-ends :
      (attempt left : ℕ)
      → is_settled attempt || not (ltb attempt spawn_limit) ≡ true
      → spawn_from attempt (suc left) ≡ some (reported (spawn attempt))
  unfolding spawn_from is_busy
  spawn_from-ends attempt left over = elim (Result-cases (spawn attempt)) [
    | inl (child, started) ↦ rw (spawn_from, started)
    | inr (source, failed) ↦ elim (Bool-cases (is_busy source && ltb attempt spawn_limit)) [
      | inl again ↦ absurd (contradict source failed again)
      | inr stop ↦ rw (spawn_from, failed, stop)
    ]
  ]
    where
      contradict :
          (source : ErrorKind)
          → spawn attempt ≡ err source
          → is_busy source && ltb attempt spawn_limit ≡ true
          → ⊥
      contradict source failed again =
          let over' : not (is_busy source) || not (ltb attempt spawn_limit) ≡ true =
            rw (◌||◌, is_settled, failed) at over in
          ground arith

  spawn_from-again :
      (attempt left : ℕ)
      → is_settled attempt ≡ false
      → ltb attempt spawn_limit ≡ true
      → spawn_from attempt (suc left) ≡ spawn_from (suc attempt) left
  unfolding spawn_from is_busy
  spawn_from-again attempt left busy below = elim (Result-cases (spawn attempt)) [
    | inl (child, started) ↦ absurd (ground (arith, (rw (is_settled, started) at busy)))
    | inr (source, failed) ↦
        let again : is_busy source ≡ true = ground (arith, (rw (is_settled, failed) at busy)) in
        rw (spawn_from, failed, again, below)
  ]

  spawn_from-settling :
      (attempt more : ℕ)
      → attempt + more ≡ spawn_limit
      → spawn_from attempt (suc more)
        ≡ some (reported (spawn (or_last (find is_settled (from attempt more)))))
  spawn_from-settling attempt zero total =
      spawn_from-ends attempt 0 (ground arith) ∙ ap (λ n. some (reported (spawn n))) (omega arith)
  spawn_from-settling attempt (suc more) total = elim (Bool-cases (is_settled attempt)) [
    | inl settled ↦ rw settled (spawn_from-ends attempt (suc more) (ground arith))
    | inr busy ↦ rw busy (
        spawn_from-again attempt (suc more) busy (ground arith)
        ∙ spawn_from-settling (suc attempt) more (omega arith))
  ]

-- The loop of `spawn_child` always returns, and never comes to its `unreachable!`: it returns the
-- outcome of the first of the attempts 1 to 7 that was not refused because the executable was busy,
-- or else that of the eighth, whatever it is.
pub spawn_child-settling :
    {Child : Type 0} (spawn : ℕ → Result ErrorKind Child) (program : Text)
    → spawn_child spawn program ≡ some (reported spawn program (spawn (settling spawn program)))
unfolding spawn_child
spawn_child-settling spawn program = spawn_from-settling spawn program 1 7 refl
