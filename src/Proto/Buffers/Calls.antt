-- ===== src/Proto/Buffers/Calls.antt =====
-- Sequences of calls of the `Buffers` of crates/ak1-proto/src/asio.rs: no sequence of calls tells
-- them from the bounded lists of Buffers/Spec.
use ak1_driver.Prelude.{ℕ, ◌≡◌, refl, List, [], ◌∷◌}
use ak1_driver.Proto.Buffers.{Buffers, capture, render, read, write}
use ak1_driver.Proto.Buffers.Spec.{Op, Reply, step, run}
use ak1_driver.Proto.Buffers.Refine.{
  IsValid, view, capture-IsValid, render-IsValid, read-IsValid, write-IsValid, capture_refines,
  render_refines, read_refines, write_refines,
}

pub call : Buffers → Op → Buffers × Reply
call b (Op.capture x) = let (b', whole) = capture b x in (b', Reply.period_complete whole)
call b Op.render = let (b', x) = render b in (b', Reply.frame x)
call b (Op.read into) = let (b', into', n) = read b into in (b', Reply.frames into' n)
call b (Op.write from) = let (b', done) = write b from in (b', Reply.written done)

pub calls : Buffers → List Op → Buffers × List Reply
calls b [] = (b, [])
calls b (op ∷ ops) =
    let (b', reply) = call b op in let (end, replies) = calls b' ops in (end, reply ∷ replies)

module _ {period transfer : ℕ} where
  -- Every call keeps the buffers valid.
  pub call-IsValid :
      {b : Buffers} (op : Op) → IsValid period transfer b → IsValid period transfer (call b op).0
  unfolding call
  call-IsValid (Op.capture x) v = capture-IsValid v x
  call-IsValid Op.render v = render-IsValid v
  call-IsValid (Op.read into) v = read-IsValid v into
  call-IsValid (Op.write from) v = write-IsValid v from

  pub call_refines :
      {b : Buffers} (op : Op)
      → IsValid period transfer b
      → (view (call b op).0, (call b op).1) ≡ step period transfer (view b) op
  unfolding call step
  call_refines (Op.capture x) v = capture_refines v x
  call_refines Op.render v = render_refines v
  call_refines (Op.read into) v = read_refines v into
  call_refines (Op.write from) v = write_refines v from

  -- No sequence of calls tells valid buffers from the lists that they hold.
  pub calls_refine :
      (ops : List Op) {b : Buffers}
      → IsValid period transfer b
      → (view (calls b ops).0, (calls b ops).1) ≡ run period transfer (view b) ops
  unfolding calls run
  calls_refine [] v = refl
  calls_refine (op ∷ ops) v = rw (← call_refines op v, ← calls_refine ops (call-IsValid op v)) refl
