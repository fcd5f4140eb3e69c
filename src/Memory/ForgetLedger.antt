-- ===== src/Memory/ForgetLedger.antt =====
-- memory/forget-ledger.ts: who was forgotten, by the event that says so, for one tenant. Times are ISO
-- texts, compared as such.
mod Tests
use Prim.Native.Nat.{Ordering}
use bounda.Prelude.{ℕ, String, Bool, true, false, Option, none, some, List, [], ◌∷◌, map}
use bounda.Prelude.Tests.{if◌then◌else◌, string_eq}
use bounda.Prelude.Lists.{take, keep_if, sort_by}
use bounda.Prelude.Dict.{Dict, get, set, has, values}
use bounda.Adapter.Order.{unit_order, then_by, is_not_after}

pub record ForgetLedgerPosition : Type 0 where
  pub forgotten_at : String
  pub event_id : String

pub record ForgetLedgerEntry : Type 0 where
  pub person_id : String
  pub position : ForgetLedgerPosition
  pub open position use *

-- The entries of one tenant, by event id.
abbrev pub Ledger : Type 0
Ledger = Dict String ForgetLedgerEntry

-- Every tenant's; the runtime's own is under the empty name.
abbrev pub Ledgers : Type 0
Ledgers = Dict String Ledger

abbrev pub tenant_key : Option String → String
tenant_key none = ""
tenant_key (some tenant) = tenant

abbrev pub entries_of : Option Ledger → Ledger
entries_of none = []
entries_of (some entries) = entries

unfoldable pub ledger_of : Ledgers → Option String → Ledger
ledger_of ledgers tenant = entries_of (get ledgers (tenant_key tenant))

-- The sign of `byForgetLedgerOrder`.
unfoldable pub by_forget_ledger_order : ForgetLedgerPosition → ForgetLedgerPosition → Ordering
by_forget_ledger_order a b =
    then_by (unit_order a.forgotten_at b.forgotten_at) (unit_order a.event_id b.event_id)

unfoldable pub append_one : Ledger → ForgetLedgerEntry → Ledger
append_one entries entry =
    if has entries entry.event_id then entries else set entries entry.event_id entry

unfoldable pub append : Ledger → List ForgetLedgerEntry → Ledger
unfolding append_one
append entries [] = entries
append entries (entry ∷ appended) = append (append_one entries entry) appended

-- `after === undefined || byForgetLedgerOrder(entry, after) > 0`.
unfoldable pub is_past : Option ForgetLedgerPosition → ForgetLedgerEntry → Bool
unfolding by_forget_ledger_order
is_past none entry = true
is_past (some after) entry = elim (by_forget_ledger_order entry.position after) [
  | Ordering.gt ↦ true
  | _ ↦ false
]

unfoldable pub read : Ledger → Option ForgetLedgerPosition → ℕ → List ForgetLedgerEntry
unfolding is_past by_forget_ledger_order
read entries after limit = take limit (
    sort_by (λ a b. is_not_after (by_forget_ledger_order a.position b.position))
      (keep_if (is_past after) (values entries)))
