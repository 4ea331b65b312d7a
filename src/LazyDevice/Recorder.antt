-- ===== src/LazyDevice/Recorder.antt =====
-- A base channel that writes down what it is asked for: the safety of the lazy channel in plain
-- terms.
use ubiblk.Prelude.{
  ℕ, ◌+◌, ◌-◌, ◌%◌, ◌^◌, ◌≡◌, ap, subst, Bool, true, false, List, [], ◌∷◌, ok, Option, arith, All,
  range_from, ok_eq,
}
use ubiblk.IoChannel.{IoChannel, Completion}
use ubiblk.SharedState.{SharedMetadataState, sector_to_stripe_id}
use ubiblk.LazyDevice.{
  LazyIoChannel, RwRequest, RequestType, inward, outward, complete, stripes_of, fetch_status_of,
  all_written, new, Sender,
}
use ubiblk.LazyDevice.Queue.{add_to_base}
use ubiblk.LazyDevice.Safety.{IsAllowed, IsCovered}
use ubiblk.LazyDevice.Progress.{Later}
use ubiblk.LazyDevice.Runs.{Keeps, Reach}
use ubiblk.LazyDevice.History.{base_is_safe}

pub record Access : Type 0 where
  pub kind : RequestType
  pub sector_offset : ℕ
  pub sector_count : ℕ

abbrev pub recorder : IoChannel
recorder = record {
  State = List Access;
  add_read = λ log off count _ _.
      ok (record { kind = inward; sector_offset = off; sector_count = count } ∷ log);
  add_write = λ log off count _ _.
      ok (record { kind = outward; sector_offset = off; sector_count = count } ∷ log);
  add_flush = λ log _. ok log;
  submit = λ log. (log, ok tt);
  poll = λ log. ok (log, []);
  busy = λ _. false;
}

-- The stripes that these sectors lie in.
abbrev pub stripes_at : SharedMetadataState → ℕ → ℕ → List ℕ
stripes_at s off count =
    let first = sector_to_stripe_id s off in
    let last = sector_to_stripe_id s ((off + count + 2 ^ 64 - 1) % 2 ^ 64) in
    range_from first (last + 1 - first)

-- Every stripe of the access is fetched or has no source; and if writes are tracked, every stripe
-- of a write is marked as written.
pub record IsServed (track : Bool) (s : SharedMetadataState) (a : Access) : Type 0 where
  pub present : fetch_status_of s (stripes_at s a.sector_offset a.sector_count) ≡ ok complete
  pub marked :
      track ≡ true
      → a.kind ≡ outward
      → all_written s (stripes_at s a.sector_offset a.sector_count) ≡ ok true

stripes_covered :
    (s : SharedMetadataState) (r : RwRequest)
    → IsCovered s r
    → stripes_of r ≡ stripes_at s r.sector_offset r.sector_count
stripes_covered s r c = rw (c.first_here, c.last_here)

stripes-Later :
    (s s' : SharedMetadataState) (off count : ℕ)
    → Later s s'
    → stripes_at s' off count ≡ stripes_at s off count
stripes-Later s s' off count later =
    rw (later.same_stripes off, later.same_stripes ((off + count + 2 ^ 64 - 1) % 2 ^ 64))

IsServed-Later :
    (track : Bool) (s s' : SharedMetadataState) (log : List Access)
    → Later s s'
    → All (IsServed track s) log
    → All (IsServed track s') log
IsServed-Later track s s' [] later h = tt
IsServed-Later track s s' (a ∷ log) later h =
    let same = stripes-Later s s' a.sector_offset a.sector_count later in
    (
      record {
        present = rw same (later.still_present _ h.0.present);
        marked = λ t k. rw same (later.still_written _ (h.0.marked t k));
      },
      IsServed-Later track s s' log later h.1,
    )

logged :
    (s : SharedMetadataState) (track : Bool) (r : RwRequest)
    → IsAllowed s track r
    → IsServed track s
        (record { kind = r.kind; sector_offset = r.sector_offset; sector_count = r.sector_count })
logged s track r allowed =
    let same = stripes_covered s r allowed.covered in
    record { present = rw same at allowed.present; marked = λ t k. rw same at (allowed.marked t k) }

recorder_log :
    (r : RwRequest) (log log' : List Access)
    → add_to_base recorder log r ≡ ok log'
    → record { kind = r.kind; sector_offset = r.sector_offset; sector_count = r.sector_count } ∷ log
      ≡ log'
unfolding add_to_base
recorder_log r log log' e = ground arith

pub recorder_keeps : (track : Bool) → Keeps recorder track (λ s log. All (IsServed track s) log)
recorder_keeps track = record {
  passes = λ s r log log' allowed e h.
      subst (All (IsServed track s)) (recorder_log r log log' e) (logged s track r allowed, h);
  flushes = λ s log log' id e h. subst (All (IsServed track s)) (ok_eq e) h;
  submits = λ s log h. h;
  polls = λ s log log' completions e h.
      subst (All (IsServed track s)) (ap (λ (t : List Access × List Completion). t.0) (ok_eq e)) h;
  observes = λ s s' log later h. IsServed-Later track s s' log later h;
}

-- Whatever calls reach a lazy channel over the recorder, and whatever progress the worker makes:
-- each access of the base device, at any time since, has its stripes present; and marked as
-- written, if writes are tracked and it is one.
pub recorded-IsServed :
    {Image : IoChannel} (track : Bool) (image : Option Image.State) (bgworker_ch : Sender)
    (s : SharedMetadataState) (c : LazyIoChannel recorder Image)
    → Reach (new {Base = recorder} {Image = Image} [] image bgworker_ch s track) c
    → All (IsServed track c.metadata_state) c.base
recorded-IsServed {Image} track image bgworker_ch s c r =
    base_is_safe {Base = recorder} {Image = Image} (λ t log. All (IsServed track t) log) track []
      image bgworker_ch s c (recorder_keeps track) tt r
