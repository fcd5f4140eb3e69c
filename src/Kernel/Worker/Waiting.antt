-- ===== src/Kernel/Worker/Waiting.antt =====
-- kernel/scheduler/worker.ts: a due deadline is executed in the end.
use mathlib.Core.Bool.{false≢true}
use text.Mathlib.TextEquality.{eq_iff}
use bounda.Prelude.{
  ℕ, ◌+◌, ◌<◌, ◌≡◌, refl, ap, sym, ◌∙◌, String, Bool, true, false, ◌||◌, Option, none, some, List,
  [], ◌∷◌, arith,
}
use bounda.Prelude.Tests.{leb, leb→gt, if_either, string_eq, if◌then◌else◌}
use bounda.Prelude.Lists.{All, contains}
use bounda.Prelude.Dict.{Dict, get, set, get-set}
use bounda.Kernel.Worker.{
  DeadlineWait, Round, deadline_wait_rounds, wait_of, least_of, is_deadline_ready, is_started,
  finish_round, kept_waits, run_round,
}

-- 1 for a round that asks whether the entry is ready.
abbrev pub asks : Bool → Bool → ℕ
asks false true = 1
asks _ _ = 0

abbrev pub asking : List Round → ℕ
asking [] = 0
asking (r ∷ rs) = asks r.is_late r.is_readable + asking rs

abbrev rounds_in : Option DeadlineWait → ℕ
rounds_in none = 0
rounds_in (some wait) = wait.rounds

module _ (key : String) where
  unfoldable pub or_later :
      Dict String DeadlineWait × Bool → (Dict String DeadlineWait → Bool) → Bool
  or_later (waits, true) later = true
  or_later (waits, false) later = later waits

  -- Whether one of the rounds, in this order, executes the entry.
  unfoldable pub runs_in : List Round → Dict String DeadlineWait → Bool
  unfolding or_later run_round
  runs_in [] waits = false
  runs_in (r ∷ rs) waits = or_later (run_round r waits key) (runs_in rs)

  abbrev rounds_of : Dict String DeadlineWait → ℕ
  rounds_of waits = rounds_in (get waits key)

  rounds_of-set :
      (waits : Dict String DeadlineWait) (w : DeadlineWait) → rounds_of (set waits key w) ≡ w.rounds
  rounds_of-set waits w = ap rounds_in (
      get-set waits key w key
      ∙ ap (λ same. if same then some w else get waits key) ((eq_iff key key).1 refl))

  get-kept_waits :
      (due : List String) (waits : Dict String DeadlineWait)
      → contains key due ≡ true
      → get (kept_waits due waits) key ≡ get waits key
  unfolding kept_waits get
  get-kept_waits due [] h = refl
  get-kept_waits due ((other, wait) ∷ waits) h =
      ground (arith, get-kept_waits due waits h, eq_iff other key, h)

  rounds_of-kept_waits :
      (due : List String) (waits : Dict String DeadlineWait)
      → contains key due ≡ true
      → rounds_of (kept_waits due waits) ≡ rounds_of waits
  rounds_of-kept_waits due waits h = ap rounds_in (get-kept_waits due waits h)

  rounds_of_lem :
      (waits : Dict String DeadlineWait) (head : ℕ)
      → (wait_of waits key head).rounds ≡ rounds_of waits
  rounds_of_lem waits head = same (get waits key)
    where
      same :
          (o : Option DeadlineWait)
          → (elim o as (λ x. DeadlineWait) [
            | none ↦ record { head = head; rounds = 0 }
            | some wait ↦ wait
          ]).rounds
            ≡ rounds_in o
      same none = refl
      same (some wait) = refl

  rounds_left :
      (a : Bool) (rounds : ℕ)
      → a || leb deadline_wait_rounds rounds ≡ false
      → rounds < deadline_wait_rounds
  rounds_left true rounds h = absurd (false≢true (sym h))
  rounds_left false rounds h = leb→gt deadline_wait_rounds rounds h

  module _ (due : List String) (is_due : contains key due ≡ true) (n : ℕ)
      (later : Dict String DeadlineWait → Bool)
      (goes_on : (waits : Dict String DeadlineWait)
        → 0 < n
        → deadline_wait_rounds < rounds_of waits + n
        → later waits ≡ true) where
    put_off :
        (waits : Dict String DeadlineWait)
        → 0 < n
        → deadline_wait_rounds < rounds_of waits + n
        → or_later (finish_round due (waits, false)) later ≡ true
    unfolding or_later finish_round
    put_off waits some_left enough =
        goes_on (kept_waits due waits) some_left
          (omega (arith, enough, rounds_of-kept_waits due waits is_due))

    asked :
        (head : ℕ) (positions : List ℕ) (waits : Dict String DeadlineWait)
        → deadline_wait_rounds < rounds_of waits + (1 + n)
        → or_later (finish_round due (is_deadline_ready head waits key positions)) later ≡ true
    unfolding or_later finish_round is_deadline_ready
    asked head [] waits enough = refl
    asked head (p ∷ ps) waits enough =
        let wait = wait_of waits key head in
        let next : DeadlineWait = record { head = wait.head; rounds = wait.rounds + 1 } in
        if_either (λ x. or_later (finish_round due x) later ≡ true)
          (leb wait.head (least_of p ps) || leb deadline_wait_rounds wait.rounds) (λ ready. refl)
          (λ waiting.
            let left : wait.rounds < deadline_wait_rounds = rounds_left _ wait.rounds waiting in
            put_off (set waits key next) (omega (arith, enough, left, rounds_of_lem waits head))
              (omega (arith, enough, rounds_of_lem waits head, rounds_of-set waits next)))

    started :
        (late readable : Bool) (head : ℕ) (positions : List ℕ) (waits : Dict String DeadlineWait)
        → 0 < asks late readable + n
        → deadline_wait_rounds < rounds_of waits + (asks late readable + n)
        → or_later (finish_round due (is_started late readable head positions waits key)) later
          ≡ true
    unfolding is_started
    started true readable head positions waits some_left enough =
        put_off waits (omega (arith, some_left)) (omega (arith, enough))
    started false true head positions waits some_left enough = asked head positions waits enough
    started false false head [] waits some_left enough = unfold or_later finish_round in refl
    started false false head (p ∷ ps) waits some_left enough =
        put_off waits (omega (arith, some_left)) (omega (arith, enough))

  goes_round :
      (rounds : List Round) (waits : Dict String DeadlineWait)
      → All (λ r. contains key r.due ≡ true) rounds
      → 0 < asking rounds
      → deadline_wait_rounds < rounds_of waits + asking rounds
      → runs_in rounds waits ≡ true
  unfolding runs_in run_round
  goes_round [] waits due some_left enough = absurd (omega (arith, some_left))
  goes_round (r ∷ rs) waits due some_left enough =
      started r.due due.0 (asking rs) (runs_in rs) (λ w. goes_round rs w due.1) r.is_late
        r.is_readable r.head r.positions waits some_left enough

  -- An entry that is due in each of the rounds, of which more than ten come to it in time and have read
  -- the runners' positions, is executed in one of them, however far behind the runners that it waits
  -- for stay, whatever waits were noted before and whichever rounds put it off unasked.
  pub runs_in_the_end :
      (rounds : List Round) (waits : Dict String DeadlineWait)
      → All (λ r. contains key r.due ≡ true) rounds
      → deadline_wait_rounds < asking rounds
      → runs_in rounds waits ≡ true
  runs_in_the_end rounds waits due enough =
      goes_round rounds waits due (omega (arith, enough)) (omega (arith, enough))
