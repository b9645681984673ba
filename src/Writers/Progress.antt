-- ===== src/Writers/Progress.antt =====
-- A `ProgressWriter` is transparent, and counts.
use hubtain.Common.{ℕ, ◌+◌, ◌%◌, ◌^◌, ◌<◌, ◌≡◌, refl, ap, ◌∙◌, List, [], ◌∷◌, arith}
use hubtain.Files.{ProgressWriter}
use hubtain.EncryptedStream.{poll_ok, poll_err, poll_pending, poll_panic}
use hubtain.Writers.{
  AsyncWriter, WriterCall, write, flush, close, WriterReply, wrote, finished, call, run_calls,
  progress_writer,
}

-- The bytes that the successful writes report.
abbrev pub taken : List WriterReply → ℕ
taken [] = 0
taken (wrote (poll_ok k) ∷ rs) = k + taken rs
taken (wrote (poll_err e) ∷ rs) = taken rs
taken (wrote poll_pending ∷ rs) = taken rs
taken (wrote poll_panic ∷ rs) = taken rs
taken (finished r ∷ rs) = taken rs

-- A state of the wrapper against one of what it wraps.
abbrev Agrees : {W : Type 0} → ℕ → WriterReply × ProgressWriter W → WriterReply × W → Type 0
Agrees before (r, p) (r', inner) =
    (r ≡ r') × (p.inner ≡ inner) × (p.bytes_writen ≡ (before + taken (r' ∷ [])) % 2 ^ 64)

module _ {W : Type 0} (w : AsyncWriter W) where
  call-Agrees :
      (self : ProgressWriter W) (c : WriterCall)
      → self.bytes_writen < 2 ^ 64
      → Agrees self.bytes_writen (call (progress_writer w) self c) (call w self.inner c)
  unfolding progress_writer
  call-Agrees self (write buf) h = ground arith
  call-Agrees self flush h = (refl, refl, omega arith)
  call-Agrees self close h = (refl, refl, omega arith)

  taken_cons :
      (r : WriterReply) (rs : List WriterReply) → taken (r ∷ rs) ≡ taken (r ∷ []) + taken rs
  taken_cons (wrote (poll_ok k)) rs = omega arith
  taken_cons (wrote (poll_err e)) rs = omega arith
  taken_cons (wrote poll_pending) rs = omega arith
  taken_cons (wrote poll_panic) rs = omega arith
  taken_cons (finished r) rs = omega arith

  -- However it is written to, flushed and closed, a `ProgressWriter` gives the answers of the writer
  -- that it wraps and leaves it in the same state; its counter, of 64 bits, grows by what the
  -- successful writes report.
  pub run_calls-progress_writer :
      (calls : List WriterCall) (self : ProgressWriter W)
      → self.bytes_writen < 2 ^ 64
      → let (replies, last) = run_calls (progress_writer w) self calls in
        let (replies', inner) = run_calls w self.inner calls in
        (replies ≡ replies')
        × (last.inner ≡ inner)
        × (last.bytes_writen ≡ (self.bytes_writen + taken replies') % 2 ^ 64)
  unfolding run_calls
  run_calls-progress_writer [] self h = (refl, refl, omega arith)
  run_calls-progress_writer (c ∷ cs) self h =
      let (same, inner, count) = call-Agrees self c h in
      let next = (call (progress_writer w) self c).1 in
      let (sames, inners, counts) = run_calls-progress_writer cs next (omega (arith, count)) in
      let then_calls = λ (x : W). run_calls w x cs in
      let total : (next.bytes_writen + taken (run_calls w next.inner cs).0) % 2 ^ 64
          ≡ (self.bytes_writen + taken ((call w self.inner c).0 ∷ (run_calls w next.inner cs).0))
            % 2 ^ 64 =
        omega (arith, count, taken_cons (call w self.inner c).0 (run_calls w next.inner cs).0) in
      (
        (λ i. same i ∷ (sames ∙ ap (λ x. (then_calls x).0) inner) i),
        inners ∙ ap (λ x. (then_calls x).1) inner,
        counts
            ∙ total
            ∙ ap
                (λ x.
                  (self.bytes_writen + taken ((call w self.inner c).0 ∷ (then_calls x).0)) % 2 ^ 64)
                inner,
      )
