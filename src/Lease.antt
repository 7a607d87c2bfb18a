-- ===== src/Lease.antt =====
-- src/btc15/storage.py: Store.acquire, writer_owner and release, the lease of a database writer;
-- src/btc15/lease_identity.py: owner_is_dead.
--
-- Keys, owners and the texts of an identity are numbers, 0 the empty text. A transaction is one
-- step; the event `writer_recovered` that it also records is left out. What /proc says of a process
-- id, and whether a text is one of digits, are parameters.
pub mod Mutex
mod Tests
use project.Common.{
  ℕ, Bool, true, false, ◌&&◌, ◌||◌, not, if◌then◌else◌, ◌==◌, Option, none, some, Dict, lookup,
  insert, erase,
}

-- `current_process()`
pub record Process : Type 0 where
  pub host : ℕ
  pub machine : ℕ
  pub boot : ℕ
  pub namespace : ℕ
  pub pid : ℕ
  pub start : ℕ

-- What is published with a lease: its owner, and the identity where the host has one. A key that
-- is absent, or not of its type, is `none`.
pub record Saved : Type 0 where
  pub owner : Option ℕ
  pub host : Option ℕ
  pub machine : Option ℕ
  pub boot : Option ℕ
  pub namespace : Option ℕ
  pub pid : Option ℕ
  pub start : Option ℕ

-- `process_start`: the start time of the process, no such file, or another error.
pub data Reading : Type 0 where
  began : ℕ → Reading
  not_found : Reading
  unreadable : Reading

-- The tables `leases` and `market_display`.
pub record Leases : Type 0 where
  pub owners : Dict ℕ
  pub displays : Dict Saved

-- `isinstance(saved.get(k), str) and saved[k]`; an integer that is positive
abbrev present : Option ℕ → Bool
present none = false
present (some text) = not (text == 0)

-- `saved[k] == value`
abbrev pub equals : Option ℕ → ℕ → Bool
equals none value = false
equals (some text) value = text == value

abbrev digits : (ℕ → Bool) → Option ℕ → Bool
digits is_digit none = false
digits is_digit (some text) = is_digit text

abbrev differs : Option ℕ → Reading → Bool
differs start (began at) = not (equals start at)
differs start not_found = true
differs start unreadable = false

abbrev reading : (ℕ → Reading) → Option ℕ → Reading
reading process_start none = unreadable
reading process_start (some pid) = process_start pid

unfoldable pub owner_is_dead : (ℕ → Bool) → (ℕ → Reading) → Saved → Option Process → Bool
owner_is_dead is_digit process_start saved none = false
owner_is_dead is_digit process_start saved (some current) =
    if not (
      present saved.host
      && present saved.machine
      && present saved.boot
      && present saved.namespace
      && present saved.start)
    then false
    else (if not (digits is_digit saved.start)
        then false
        else (if not (present saved.pid)
            then false
            else (if not (equals saved.host current.host && equals saved.machine current.machine)
                then false
                else (if not (equals saved.boot current.boot)
                    then true
                    else (if not (equals saved.namespace current.namespace)
                        then false
                        else differs saved.start (reading process_start saved.pid))))))

-- `dict(owner=owner, **(identity or {}))`
unfoldable pub saved_of : ℕ → Option Process → Saved
saved_of owner none = record {
  owner = some owner;
  host = none;
  machine = none;
  boot = none;
  namespace = none;
  pid = none;
  start = none;
}
saved_of owner (some p) = record {
  owner = some owner;
  host = some p.host;
  machine = some p.machine;
  boot = some p.boot;
  namespace = some p.namespace;
  pid = some p.pid;
  start = some p.start;
}

unfoldable pub hold : ℕ → ℕ → Option Process → Leases → Leases
hold key owner identity s = record {
  owners = insert key owner s.owners;
  displays = insert key (saved_of owner identity) s.displays;
}

-- The saved identity is the owner's, and shows that the owner is dead.
unfoldable pub may_replace : (ℕ → Bool) → (ℕ → Reading) → Option Process → ℕ → Option Saved → Bool
may_replace is_digit process_start identity previous none = false
may_replace is_digit process_start identity previous (some saved) =
    equals saved.owner previous && owner_is_dead is_digit process_start saved identity

abbrev pub held_by : Option ℕ → Bool
held_by none = false
held_by (some owner) = true

abbrev pub owner_or : Option ℕ → ℕ
owner_or none = 0
owner_or (some owner) = owner

-- `acquire`; it raises `none`, and then the transaction leaves the tables as they were.
unfoldable pub acquire :
    (ℕ → Bool) → (ℕ → Reading) → Option Process → ℕ → ℕ → Leases → Option Leases
acquire is_digit process_start identity key owner s =
    let previous = lookup key s.owners in
    let replaces =
      may_replace is_digit process_start identity (owner_or previous) (lookup key s.displays) in
    if held_by previous && not replaces then none else some (hold key owner identity s)

-- `writer_owner`, of any key
unfoldable pub holder : ℕ → Leases → Option ℕ
holder key s = lookup key s.owners

unfoldable pub release : ℕ → ℕ → Leases → Leases
release key owner s =
    if equals (lookup key s.owners) owner
    then record { owners = erase key s.owners; displays = erase key s.displays }
    else s
