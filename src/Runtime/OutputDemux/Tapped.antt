-- ===== src/Runtime/OutputDemux/Tapped.antt =====
-- The tap in front of the scrollback store: what the demux gates, the store has all the same.
use Prim.Native.String.{String}
use tmuxcc_driver.Prelude.{ℕ, ◌≡◌, refl, ap, ◌∙◌, List, [], ◌∷◌, arith, Bytes, some}
use tmuxcc_driver.Prelude.Keyed.{string_keyed, nat_keyed}
use tmuxcc_driver.State.Scrollback
use tmuxcc_driver.State.Scrollback.{Store}
use tmuxcc_driver.State.Scrollback.Contents.{take_last}
use tmuxcc_driver.State.Scrollback.History.{written, get_contents-run}
use tmuxcc_driver.Runtime.OutputDemux.{
  OutputDemux, Call, appends, drops, clears, binds, closes, microtask, fan_out, stage, deliver, tap,
  append, attach_transport, unsubscribe, detach_transport, pause_pane, resume_pane,
  settle_dropped_bytes, notify_pane_bound, fan_chunks, flush, run_microtask, notify_pane_closed,
  begin_pane_hydration, end_pane_hydration, create_output_demux, call, run,
}

-- The calls of the store that a history of the demux makes.
abbrev pub store_calls : List Call → List Scrollback.Call
store_calls [] = []
store_calls (appends pane bytes ∷ cs) = Scrollback.appends pane bytes ∷ store_calls cs
store_calls (drops pane ∷ cs) = Scrollback.drops pane ∷ store_calls cs
store_calls (clears ∷ cs) = Scrollback.clears ∷ store_calls cs
store_calls (_ ∷ cs) = store_calls cs

inner-fan_out : (p : String) (b : Bytes) (d : OutputDemux) → (fan_out p b d).0.inner ≡ d.inner
unfolding fan_out
inner-fan_out p b d = refl

inner-fan_chunks :
    (p : String) (cs : List Bytes) (d : OutputDemux) → (fan_chunks p cs d).0.inner ≡ d.inner
unfolding fan_chunks
inner-fan_chunks p [] d = refl
inner-fan_chunks p (c ∷ cs) d = inner-fan_chunks p cs (fan_out p c d).0 ∙ inner-fan_out p c d

inner-tap : (p : String) (b : Bytes) (d : OutputDemux) → (tap p b d).0.inner ≡ d.inner
unfolding tap deliver stage
inner-tap p b d = ground (arith, inner-fan_out p b d)

inner-run_microtask : (d : OutputDemux) → (run_microtask d).0.inner ≡ d.inner
unfolding run_microtask flush
inner-run_microtask d = first_task d.microtasks refl
  where
    first_task :
        (tasks : List (String × List Bytes))
        → d.microtasks ≡ tasks
        → (run_microtask d).0.inner ≡ d.inner
    first_task [] e = rw (e, run_microtask) refl
    first_task ((q, cs) ∷ later) e =
        rw (e, run_microtask)
          (ground (arith, inner-fan_chunks q cs (record d { microtasks = later })))

inner-binds : (p : String) (d : OutputDemux) → (notify_pane_bound p d).0.inner ≡ d.inner
unfolding notify_pane_bound settle_dropped_bytes
inner-binds p d = ground arith

inner-closes : (p : String) (d : OutputDemux) → (notify_pane_closed p d).0.inner ≡ d.inner
unfolding notify_pane_closed settle_dropped_bytes
inner-closes p d = ground arith

inner-call :
    (cap_bytes : ℕ) (c : Call) (cs : List Call) (d : OutputDemux)
    → Scrollback.run cap_bytes (call cap_bytes c d).0.inner (store_calls cs)
      ≡ Scrollback.run cap_bytes d.inner (store_calls (c ∷ cs))
unfolding call append attach_transport unsubscribe detach_transport pause_pane resume_pane
    begin_pane_hydration end_pane_hydration Scrollback.run
inner-call cap_bytes (appends p b) cs d =
    ap (λ s. Scrollback.run cap_bytes s (store_calls cs))
      (inner-tap p b (record d { inner = Scrollback.append cap_bytes d.inner p b }))
inner-call cap_bytes (binds p) cs d =
    ap (λ s. Scrollback.run cap_bytes s (store_calls cs)) (inner-binds p d)
inner-call cap_bytes (closes p) cs d =
    ap (λ s. Scrollback.run cap_bytes s (store_calls cs)) (inner-closes p d)
inner-call cap_bytes microtask cs d =
    ap (λ s. Scrollback.run cap_bytes s (store_calls cs)) (inner-run_microtask d)
inner-call cap_bytes _ cs d = refl

inner-run :
    (cap_bytes : ℕ) (cs : List Call) (d : OutputDemux)
    → (run cap_bytes cs d).0.inner ≡ Scrollback.run cap_bytes d.inner (store_calls cs)
unfolding run Scrollback.run
inner-run cap_bytes [] d = refl
inner-run cap_bytes (c ∷ cs) d =
    inner-run cap_bytes cs (call cap_bytes c d).0 ∙ inner-call cap_bytes c cs d

-- Whatever is paused, staged, dropped or held back on the way to the clients, the contents of a pane
-- behind the demux are the last `cap_bytes` bytes appended since its last drop or the last clear.
pub get_contents-inner-run :
    (cap_bytes : ℕ) (cs : List Call) (pane : String)
    → Scrollback.get_contents (run cap_bytes cs (create_output_demux [])).0.inner pane
      ≡ some (take_last cap_bytes (written pane [] (store_calls cs)))
unfolding create_output_demux
get_contents-inner-run cap_bytes cs pane =
    ap (λ s. Scrollback.get_contents s pane) (inner-run cap_bytes cs (create_output_demux []))
    ∙ get_contents-run cap_bytes (store_calls cs) pane
