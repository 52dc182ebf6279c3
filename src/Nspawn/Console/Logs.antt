-- ===== src/Nspawn/Console/Logs.antt =====
-- What the coordinator gets of a container's console.
use siplane.Base.{
  ℕ, suc, ◌+◌, ◌≤◌, ◌≡◌, refl, sym, ap, ◌∙◌, Bool, true, false, some, List, [], ◌∷◌, ◌++◌,
  append_assoc, arith, if◌then◌else◌, length, length-append,
}
use siplane.Nspawn.Console.{
  Streamer, start, Input, shutdown, channel_dropped, read, read_failed, Output, send_log,
  spawn_stop_job, step, Runs, stop, more,
}

abbrev log_of : Output → List Output
log_of (send_log a b c d) = send_log a b c d ∷ []
log_of spawn_stop_job = []

abbrev pub logs : List Output → List Output
logs [] = []
logs (o ∷ os) = log_of o ++ logs os

logs-append : (xs ys : List Output) → logs (xs ++ ys) ≡ logs xs ++ logs ys
logs-append [] ys = refl
logs-append (x ∷ xs) ys = rw (logs-append xs ys) (sym (append_assoc (log_of x) _ _))

abbrev has_data : Input → Bool
has_data (read fd (b ∷ bs) probe) = true
has_data _ = false

abbrev count_data : ℕ → Input → ℕ
count_data n i = if has_data i then suc n else n

abbrev logged_at : ℕ → Input → List Output
logged_at n (read fd (b ∷ bs) probe) = send_log n (n + 1) ((fd, length (b ∷ bs)) ∷ []) (b ∷ bs) ∷ []
logged_at n _ = []

-- The logs that the reads call for: each piece of output read, in the order of the reads, under
-- consecutive numbers from `n` on.
abbrev pub logged : ℕ → List Input → List Output
logged n [] = []
logged n (i ∷ is) = logged_at n i ++ logged (count_data n i) is

step-logs :
    (s u : Streamer) (i : Input) (o : List Output)
    → step s i ≡ some (u, o)
    → (logs o ≡ logged_at s.console_queue_offset i)
      × (u.console_queue_offset ≡ count_data s.console_queue_offset i)
      × (length s.console_queue ≡ s.console_queue_offset
          → length u.console_queue ≡ u.console_queue_offset)
unfolding step
step-logs s u shutdown o e = ground arith
step-logs s u channel_dropped o e = ground arith
step-logs s u (read fd [] probe) o e = ground arith
step-logs s u (read fd (b ∷ bs) probe) o e =
    ground (arith, length-append s.console_queue ((fd, b ∷ bs) ∷ []))
step-logs s u (read_failed fd) o e = ground arith

abbrev pub data_reads : ℕ → List Input → ℕ
data_reads n [] = n
data_reads n (i ∷ is) = data_reads (count_data n i) is

logs_from :
    {s t : Streamer} {is : List Input} {out : List Output}
    → Runs s is t out
    → (logs out ≡ logged s.console_queue_offset is)
      × (t.console_queue_offset ≡ data_reads s.console_queue_offset is)
      × (length s.console_queue ≡ s.console_queue_offset
          → length t.console_queue ≡ t.console_queue_offset)
logs_from stop = (refl, refl, λ h. h)
logs_from {s = s} (more {u = u} {i = i} {is = is} {o = o} {outs = outs} e r) =
    let (a, b, c) = step-logs s u i o e in
    let (a', b', c') = logs_from r in
    (rw (logs-append o outs, a, a', b), b' ∙ ap (λ n. data_reads n is) b, λ h. c' (c h))

-- Over any run of the streamer, the coordinator gets each piece of output that was read, whole, once,
-- with its stream and its length, in the order of the reads and under the numbers 0, 1, 2 and so
-- on; and as nothing ever leaves the queue, it holds as many pieces as were sent.
pub console_logged_in_order :
    {t : Streamer} {is : List Input} {out : List Output}
    → Runs start is t out
    → (logs out ≡ logged 0 is)
      × (t.console_queue_offset ≡ data_reads 0 is)
      × (length t.console_queue ≡ data_reads 0 is)
unfolding start
console_logged_in_order r = let (a, b, c) = logs_from r in (a, b, c refl ∙ b)

abbrev pub stops : List Output → ℕ
stops [] = 0
stops (spawn_stop_job ∷ os) = suc (stops os)
stops (send_log a b c d ∷ os) = stops os

stops-append : (xs ys : List Output) → stops (xs ++ ys) ≡ stops xs + stops ys
stops-append [] ys = omega arith
stops-append (spawn_stop_job ∷ xs) ys = omega (arith, stops-append xs ys)
stops-append (send_log a b c d ∷ xs) ys = stops-append xs ys

abbrev open_streams : Streamer → ℕ
open_streams s = (if s.stdout_closed then 0 else 1) + (if s.stderr_closed then 0 else 1)

step-stops :
    (s u : Streamer) (i : Input) (o : List Output)
    → step s i ≡ some (u, o)
    → stops o + open_streams u ≤ open_streams s
unfolding step
step-stops s u shutdown o e = ground arith
step-stops s u channel_dropped o e = ground arith
step-stops s u (read fd [] probe) o e = ground arith
step-stops s u (read fd (b ∷ bs) probe) o e = ground arith
step-stops s u (read_failed fd) o e = ground arith

stops_from :
    {s t : Streamer} {is : List Input} {out : List Output}
    → Runs s is t out
    → stops out + open_streams t ≤ open_streams s
stops_from stop = omega arith
stops_from {s = s} (more {u = u} {i = i} {o = o} {outs = outs} e r) =
    omega (arith, stops-append o outs, step-stops s u i o e, stops_from r)

-- The streamer asks at most twice for the job to be stopped, once for each stream that closes.
stop_asked_at_most_twice :
    {t : Streamer} {is : List Input} {out : List Output} → Runs start is t out → stops out ≤ 2
unfolding start
stop_asked_at_most_twice r = omega (arith, stops_from r)
