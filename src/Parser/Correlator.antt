-- ===== src/Parser/Correlator.antt =====
-- packages/driver/src/parser/correlator.ts: matching tmux's reply blocks to the commands sent.
-- A promise is the number of its slot; what the object does to the outside (settling a promise,
-- writing, calling an observer) is a list of effects in order. The clock is an argument, in
-- milliseconds, and ages stay in milliseconds.
pub mod Body
pub mod Replies
pub mod Settling
pub mod Fifo
pub mod Sending
pub mod Tests
use tmuxcc_driver.Prelude.{
  ℕ, zero, suc, ◌+◌, ◌-◌, Bool, true, false, not, ◌&&◌, Option, none, some, List, [], ◌∷◌, ◌++◌,
  Bytes, length, ltb, leb, ◌==◌, if◌then◌else◌,
}
use tmuxcc_driver.Prelude.Buffers.{zeros, gather}
use tmuxcc_driver.Parser.Tokens.{
  NotificationToken, Guard, ControlToken, notification, block_begin, block_end, block_error,
  block_body, dcs_open, dcs_close,
}

pub record CommandResult : Type 0 where
  pub ok : Bool
  pub command_number : ℕ
  pub body : Bytes

-- The errors that a promise is rejected with; `abandoned` carries the caller's error.
pub data CommandError : Type 0 where
  begin_while_open : (command_number open_number : ℕ) → CommandError
  number_mismatch : (begun closed : ℕ) → CommandError
  unexpected_number : (expected got : ℕ) → CommandError
  abandoned : ℕ → CommandError

pub data Effect : Type 0 where
  resolve : ℕ → CommandResult → Effect
  reject : ℕ → CommandError → Effect
  write : Bytes → Effect
  on_notification : NotificationToken → Effect
  on_unsolicited_block : Effect
  on_pending_changed : (depth oldest_age_ms : ℕ) → Effect

pub record PendingCommand : Type 0 where
  pub slot : ℕ
  pub expected_command_number : Option ℕ
  pub cancelled : Bool
  pub registered_at_ms : ℕ

pub record InFlight : Type 0 where
  pub command_number : ℕ
  pub body_chunks : List Bytes
  pub body_len : ℕ
  pub is_startup_block : Bool

-- Which of the optional callbacks were supplied.
pub record Options : Type 0 where
  pub observes_notifications : Bool
  pub writes : Bool
  pub observes_unsolicited : Bool
  pub observes_pending : Bool

-- `next_slot` numbers the promises made so far.
pub record CommandCorrelator : Type 0 where
  pub pending : List PendingCommand
  pub in_flight : Option InFlight
  pub next_slot : ℕ

abbrev pub new_correlator : CommandCorrelator
new_correlator = record { pending = []; in_flight = none; next_slot = 0 }

-- An operation's new state and its effects.
abbrev pub Outcome : Type 0
Outcome = CommandCorrelator × List Effect

abbrev pub oldest_age : ℕ → List PendingCommand → ℕ
oldest_age now [] = 0
oldest_age now (oldest ∷ _) = now - oldest.registered_at_ms

unfoldable pub pending_snapshot : ℕ → CommandCorrelator → ℕ × ℕ
pending_snapshot now c = (length c.pending, oldest_age now c.pending)

-- Effects of an observer that may be missing.
abbrev pub observed : Bool → Effect → List Effect
observed true e = e ∷ []
observed false e = []

abbrev pub line : Bytes → Bytes
line command = command ++ 0x0a ∷ []

abbrev pub lines : List Bytes → Bytes
lines [] = []
lines (command ∷ commands) = line command ++ lines commands

-- The loop of `cancelOldest`, with the number of slots still to cancel.
unfoldable pub cancel_loop : ℕ → ℕ → List PendingCommand → List PendingCommand × List Effect
cancel_loop why count [] = ([], [])
cancel_loop why zero (p ∷ ps) = (p ∷ ps, [])
cancel_loop why (suc count) (p ∷ ps) =
    let skipped = cancel_loop why (suc count) ps in
    let rest = cancel_loop why count ps in
    if p.cancelled
    then (p ∷ skipped.0, skipped.1)
    else (record p { cancelled = true } ∷ rest.0, reject p.slot (abandoned why) ∷ rest.1)

abbrev pub bind_oldest : ℕ → List PendingCommand → List PendingCommand
bind_oldest n [] = []
bind_oldest n (p ∷ ps) = record p { expected_command_number = some n } ∷ ps

abbrev pub open_block : Guard → CommandCorrelator → CommandCorrelator
open_block g c =
    let is_startup_block = g.flags == 0 in
    record c {
      pending = if is_startup_block then c.pending else bind_oldest g.command_number c.pending;
      in_flight = some (record {
        command_number = g.command_number;
        body_chunks = [];
        body_len = 0;
        is_startup_block = is_startup_block;
      });
    }

unfoldable pub handle_body : Bytes → CommandCorrelator → Outcome
handle_body bytes c = elim c.in_flight [
  | none ↦ (c, [])
  | some block ↦ (
    record c {
      in_flight = some (record block {
        body_chunks = block.body_chunks ++ bytes ∷ [];
        body_len = block.body_len + length bytes;
      });
    },
    [],
  )
]

-- The chunks with a newline before each but the first, as the loop of `_collectBody` writes them.
abbrev pub separated : List Bytes → List Bytes
separated [] = []
separated (chunk ∷ chunks) = (0x0a ∷ []) ∷ chunk ∷ separated chunks

-- `none` would be a write past the array's end.
unfoldable pub collect_chunks : List Bytes → ℕ → Option Bytes
collect_chunks [] total = some []
collect_chunks (chunk ∷ []) total = some chunk
collect_chunks (chunk ∷ next ∷ rest) total =
    let chunks = chunk ∷ next ∷ rest in
    gather (zeros (total + length chunks - 1)) 0 (chunk ∷ separated (next ∷ rest))

unfoldable pub collect_body : InFlight → Option Bytes
collect_body block = collect_chunks block.body_chunks block.body_len

abbrev pub agrees : Option ℕ → ℕ → Bool
agrees none n = true
agrees (some expected) n = expected == n

abbrev pub expected_or : Option ℕ → ℕ → ℕ
expected_or none n = n
expected_or (some expected) n = expected

-- The reply of a cancelled slot is discarded.
unfoldable pub settle : PendingCommand → CommandResult → List Effect
settle p result =
    let expected = p.expected_command_number in
    if p.cancelled
    then []
    else if not (agrees expected result.command_number)
    then reject p.slot
        (unexpected_number (expected_or expected result.command_number) result.command_number)
      ∷ []
    else resolve p.slot result ∷ []

unfoldable pub cancel_oldest : ℕ → ℕ → CommandCorrelator → Outcome
cancel_oldest count why c =
    let cancelled = cancel_loop why count c.pending in
    (record c { pending = cancelled.0 }, cancelled.1)

module _ (opts : Options) (now : ℕ) where
  abbrev pub fire_pending_changed : List PendingCommand → List Effect
  fire_pending_changed pending =
      observed opts.observes_pending (on_pending_changed (length pending) (oldest_age now pending))

  abbrev pub new_pending : ℕ → PendingCommand
  new_pending slot = record {
    slot = slot;
    expected_command_number = none;
    cancelled = false;
    registered_at_ms = now;
  }

  unfoldable pub expect_command : CommandCorrelator → Outcome
  expect_command c =
      let pending = c.pending ++ new_pending c.next_slot ∷ [] in
      (record c { pending = pending; next_slot = suc c.next_slot }, fire_pending_changed pending)

  -- `none` is the exception of a correlator built without a writer.
  unfoldable pub send : Bytes → CommandCorrelator → Option Outcome
  send command c =
      let sent = expect_command c in
      if not opts.writes then none else some (sent.0, sent.1 ++ write (line command) ∷ [])

  unfoldable pub expect_all : List Bytes → CommandCorrelator → Outcome
  expect_all [] c = (c, [])
  expect_all (_ ∷ commands) c =
      let first = expect_command c in
      let rest = expect_all commands first.0 in (rest.0, first.1 ++ rest.1)

  unfoldable pub send_batch : List Bytes → CommandCorrelator → Option Outcome
  send_batch commands c =
      let sent = expect_all commands c in
      if not opts.writes
      then none
      else if length commands == 0
      then some (c, [])
      else some (sent.0, sent.1 ++ write (lines commands) ∷ [])

  unfoldable pub reject_oldest : CommandError → CommandCorrelator → Outcome
  reject_oldest e c = elim c.pending [
    | [] ↦ (c, [])
    | p ∷ ps ↦ (record c { pending = ps }, fire_pending_changed ps ++ reject p.slot e ∷ [])
  ]

  -- A %begin inside an open block rejects the oldest slot first.
  unfoldable pub handle_begin : Guard → CommandCorrelator → Outcome
  handle_begin g c = elim c.in_flight [
    | none ↦ (open_block g c, [])
    | some block ↦
        let rejected = reject_oldest (begin_while_open g.command_number block.command_number) c in
        (open_block g rejected.0, rejected.1)
  ]

  -- The tail of `_closeBlock`: the oldest slot takes the result.
  unfoldable pub deliver : CommandResult → CommandCorrelator → Outcome
  deliver result c = elim c.pending [
    | [] ↦ (c, observed opts.observes_unsolicited on_unsolicited_block)
    | p ∷ ps ↦ (record c { pending = ps }, fire_pending_changed ps ++ settle p result)
  ]

  unfoldable pub close_open : Bool → ℕ → InFlight → CommandCorrelator → Option Outcome
  close_open ok n block c =
      let closed = record c { in_flight = none } in
      if not (block.command_number == n)
      then some (reject_oldest (number_mismatch block.command_number n) closed)
      else elim (collect_body block) [
        | none ↦ none
        | some body ↦
            if block.is_startup_block
            then some (closed, [])
            else some (deliver (record { ok = ok; command_number = n; body = body }) closed)
      ]

  unfoldable pub close_block : Bool → ℕ → CommandCorrelator → Option Outcome
  close_block ok n c = elim c.in_flight [
    | none ↦ some (c, [])
    | some block ↦ close_open ok n block c
  ]

  unfoldable pub push : ControlToken → CommandCorrelator → Option Outcome
  push (block_begin g) c = some (handle_begin g c)
  push (block_body bytes) c = some (handle_body bytes c)
  push (block_end g) c = close_block true g.command_number c
  push (block_error g) c = close_block false g.command_number c
  push (notification token) c =
      some (c, observed opts.observes_notifications (on_notification token))
  push dcs_open c = some (c, [])
  push dcs_close c = some (c, [])

-- The calls of a session, with the clock at each, and a history of them.
pub data Call : Type 0 where
  expects : Call
  sends : Bytes → Call
  sends_batch : List Bytes → Call
  cancels : (count why : ℕ) → Call
  pushes : ControlToken → Call

unfoldable pub call : Options → ℕ → Call → CommandCorrelator → Option Outcome
call opts now expects c = some (expect_command opts now c)
call opts now (sends command) c = send opts now command c
call opts now (sends_batch commands) c = send_batch opts now commands c
call opts now (cancels count why) c = some (cancel_oldest count why c)
call opts now (pushes token) c = push opts now token c

-- A call that throws leaves the object as it was.
abbrev pub or_unchanged : CommandCorrelator → Option Outcome → Outcome
or_unchanged c none = (c, [])
or_unchanged c (some o) = o

unfoldable pub run : Options → List (ℕ × Call) → CommandCorrelator → Outcome
run opts [] c = (c, [])
run opts ((now, k) ∷ ks) c =
    let first = or_unchanged c (call opts now k c) in
    let rest = run opts ks first.0 in (rest.0, first.1 ++ rest.1)
