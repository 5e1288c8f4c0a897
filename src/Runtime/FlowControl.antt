-- ===== src/Runtime/FlowControl.antt =====
-- packages/driver/src/runtime/flow-control.ts: pausing a pane whose clients fall behind.
-- A pane `p<N>` is the number N, which the default mapping sends to tmux; a client is a number. What
-- the controller does to the outside is a list of effects in order.
pub mod Ledger
pub mod Accounts
pub mod Books
pub mod Calls
pub mod Held
pub mod NoWedge
pub mod History
pub mod Gates
pub mod Tests
use tmuxcc_driver.Prelude.{
  ℕ, zero, suc, ◌+◌, ◌-◌, Bool, true, false, not, ◌&&◌, Option, none, some, List, [], ◌∷◌, ◌++◌,
  length, ltb, leb, ◌==◌, if◌then◌else◌, max,
}
use tmuxcc_driver.Prelude.Keyed.{nat_keyed}
use tmuxcc_driver.Prelude.Dict.{Dict, get, set, delete, has, add, remove}

abbrev pub default_high_water_bytes : ℕ
default_high_water_bytes = 262_144

abbrev pub default_low_water_bytes : ℕ
default_low_water_bytes = 65_536

pub data FlowState : Type 0 where
  pause continue : FlowState

pub data Effect : Type 0 where
  pause_pane resume_pane : ℕ → Effect
  send_flow : ℕ → FlowState → Effect
  on_drain_clamped on_bytes_while_paused : (pane bytes : ℕ) → Effect
  on_command_failed : FlowState → Effect

pub record FlowController : Type 0 where
  pub buffered : Dict ℕ (Dict ℕ ℕ)
  pub clients : List ℕ
  pub paused : List ℕ

abbrev pub Outcome : Type 0
Outcome = FlowController × List Effect

-- The two marks, in bytes, and whether the hook `onDrainClamped` throws, as the session proxy's does.
pub record Waters : Type 0 where
  pub high_water : ℕ
  pub low_water : ℕ
  pub clamp_throws : Bool

abbrev pub new_controller : FlowController
new_controller = record { buffered = []; clients = []; paused = [] }

abbrev pub or_default : ℕ → Option ℕ → ℕ
or_default n none = n
or_default n (some m) = m

-- `none` is the exception of a low-water mark that is not below the high one.
unfoldable pub create_flow_controller : Option ℕ → Option ℕ → Bool → Option Waters
create_flow_controller high low clamp_throws =
    let high_water = or_default default_high_water_bytes high in
    let low_water = or_default default_low_water_bytes low in
    if leb high_water low_water
    then none
    else some
        (record { high_water = high_water; low_water = low_water; clamp_throws = clamp_throws })

abbrev pub or_zero : Option ℕ → ℕ
or_zero none = 0
or_zero (some n) = n

abbrev pub or_empty : Option (Dict ℕ ℕ) → Dict ℕ ℕ
or_empty none = []
or_empty (some inner) = inner

abbrev pub inner_for : FlowController → ℕ → Dict ℕ ℕ
inner_for fc pane = or_empty (get fc.buffered pane)

unfoldable pub max_of : Dict ℕ ℕ → ℕ
max_of [] = 0
max_of ((k, v) ∷ inner) = max v (max_of inner)

abbrev pub max_buffered : FlowController → ℕ → ℕ
max_buffered fc pane = max_of (inner_for fc pane)

-- The bytes fanned into every client's sub-ledger, and the clamp back to a mark.
unfoldable pub credit : List ℕ → ℕ → Dict ℕ ℕ → Dict ℕ ℕ
credit [] n inner = inner
credit (k ∷ ks) n inner = credit ks n (set inner k (or_zero (get inner k) + n))

unfoldable pub clamp : List ℕ → ℕ → Dict ℕ ℕ → Dict ℕ ℕ
clamp [] high inner = inner
clamp (k ∷ ks) high inner =
    clamp ks high (if ltb high (or_zero (get inner k)) then set inner k high else inner)

abbrev pub pause_effects : ℕ → List Effect
pause_effects pane = pause_pane pane ∷ send_flow pane pause ∷ []

abbrev pub resume_effects : ℕ → List Effect
resume_effects pane = resume_pane pane ∷ send_flow pane continue ∷ []

abbrev pub resume : ℕ → FlowController → Outcome
resume pane fc = (record fc { paused = remove fc.paused pane }, resume_effects pane)

unfoldable pub delete_everywhere : ℕ → Dict ℕ (Dict ℕ ℕ) → Dict ℕ (Dict ℕ ℕ)
delete_everywhere client [] = []
delete_everywhere client ((pane, inner) ∷ buffered) =
    (pane, delete inner client) ∷ delete_everywhere client buffered

unfoldable pub add_client : ℕ → FlowController → Outcome
add_client client fc = (record fc { clients = add fc.clients client }, [])

unfoldable pub on_pause_notification : ℕ → FlowController → Outcome
on_pause_notification pane fc =
    if has fc.paused pane
    then (fc, [])
    else (record fc { paused = add fc.paused pane }, pause_pane pane ∷ [])

unfoldable pub on_continue_notification : ℕ → FlowController → Outcome
on_continue_notification pane fc =
    if has fc.paused pane
    then (record fc { paused = remove fc.paused pane }, resume_pane pane ∷ [])
    else (fc, [])

-- The reply of a pause or continue command.
unfoldable pub on_flow_reply : Bool → FlowState → List Effect
on_flow_reply ok state = if ok then [] else on_command_failed state ∷ []

module _ (w : Waters) where
  -- The resume edge of one pane.
  abbrev pub resume_if_low : ℕ → FlowController → Outcome
  resume_if_low pane fc =
      if has fc.paused pane && leb (max_buffered fc pane) w.low_water
      then resume pane fc
      else (fc, [])

  unfoldable pub resume_all : List ℕ → FlowController → Outcome
  resume_all [] fc = (fc, [])
  resume_all (pane ∷ panes) fc =
      let first = resume_if_low pane fc in
      let rest = resume_all panes first.0 in (rest.0, first.1 ++ rest.1)

  unfoldable pub remove_client : ℕ → FlowController → Outcome
  remove_client client fc =
      if has fc.clients client
      then resume_all fc.paused (record fc {
        buffered = delete_everywhere client fc.buffered;
        clients = remove fc.clients client;
      })
      else (fc, [])

  -- The bytes are owed to every client; crossing the mark pauses the pane and clamps.
  abbrev pub credit_pane : ℕ → ℕ → FlowController → Outcome
  credit_pane pane n fc =
      let inner = credit fc.clients n (inner_for fc pane) in
      if ltb w.high_water (max_of inner)
      then (
        record fc {
          buffered = set fc.buffered pane (clamp fc.clients w.high_water inner);
          paused = add fc.paused pane;
        },
        pause_effects pane,
      )
      else (record fc { buffered = set fc.buffered pane inner }, [])

  unfoldable pub on_pane_bytes : ℕ → ℕ → FlowController → Outcome
  on_pane_bytes pane n fc =
      if n == 0
      then (fc, [])
      else if has fc.paused pane
      then (fc, on_bytes_while_paused pane n ∷ [])
      else if length fc.clients == 0
      then (fc, [])
      else credit_pane pane n fc

  unfoldable pub on_extended_output : ℕ → ℕ → FlowController → Outcome
  on_extended_output pane n fc = on_pane_bytes pane n fc

  -- The debit of a sub-ledger that is there.
  abbrev pub debit : ℕ → ℕ → ℕ → ℕ → FlowController → Outcome
  debit pane n client prev fc =
      let clamped = if ltb prev n then on_drain_clamped pane (n - prev) ∷ [] else [] in
      let resumed = resume_if_low pane (record fc {
        buffered = set fc.buffered pane (set (inner_for fc pane) client (prev - n));
      }) in
      (resumed.0, clamped ++ resumed.1)

  -- An exception of the hook ends the call behind the hook's effect, with nothing debited.
  unfoldable pub note_drained : ℕ → ℕ → ℕ → FlowController → Outcome
  note_drained pane n client fc =
      if n == 0 then (fc, []) else elim (get (inner_for fc pane) client) [
        | none ↦ (fc, on_drain_clamped pane n ∷ [])
        | some prev ↦
            if w.clamp_throws && ltb prev n
            then (fc, on_drain_clamped pane (n - prev) ∷ [])
            else debit pane n client prev fc
      ]

-- The calls of a session, and a history of them.
pub data Call : Type 0 where
  adds_client removes_client : ℕ → Call
  pane_bytes extended_output : (pane bytes : ℕ) → Call
  drained : (pane bytes client : ℕ) → Call
  paused_by_tmux continued_by_tmux : ℕ → Call

unfoldable pub call : Waters → Call → FlowController → Outcome
call w (adds_client client) fc = add_client client fc
call w (removes_client client) fc = remove_client w client fc
call w (pane_bytes pane n) fc = on_pane_bytes w pane n fc
call w (extended_output pane n) fc = on_extended_output w pane n fc
call w (drained pane n client) fc = note_drained w pane n client fc
call w (paused_by_tmux pane) fc = on_pause_notification pane fc
call w (continued_by_tmux pane) fc = on_continue_notification pane fc

unfoldable pub run : Waters → List Call → FlowController → Outcome
run w [] fc = (fc, [])
run w (c ∷ cs) fc =
    let first = call w c fc in let rest = run w cs first.0 in (rest.0, first.1 ++ rest.1)
