-- ===== src/Copybit/Batches.antt =====
-- The lists of requests that `stretch_copybit` gives to the driver.
use mathlib.Core.List.{append_assoc, append-nil}
use hardware_msm7k.Prelude.Int.{ℤ, pos, is_zero}
use hardware_msm7k.Prelude.{
  suc, ◌≤◌, ◌<◌, ◌≡◌, ◌⊎◌, refl, ap, sym, ◌∙◌, Bool, true, false, ◌&&◌, ◌||◌, ltb, ◌==◌,
  if◌then◌else◌, Option, some, List, [], ◌∷◌, ◌++◌, length, ◌>>=◌, bind-some, arith, Bool-cases,
  inl, inr, length-append,
}
use hardware_msm7k.Errno.{Errno}
use hardware_msm7k.Copybit.{Formats, FlagBits, Rect, Image, BlitReq, Context}
use hardware_msm7k.Copybit.Stretch.{
  Driver, Progress, request, is_empty, submit, enqueue, scan, flush, is_refused, stretch_copybit,
}

-- A list that the driver can take: not empty, and with room in the array of the source.
abbrev pub IsBatch : List BlitReq → Type 0
IsBatch batch = (0 < length batch) × (length batch ≤ 12)

pub data AllBatches : List (List BlitReq) → Type 0 where
  none_sent : AllBatches []
  one_more :
      {batch : List BlitReq} {sent : List (List BlitReq)}
      → IsBatch batch
      → AllBatches sent
      → AllBatches (batch ∷ sent)

AllBatches-snoc :
    (sent : List (List BlitReq)) (batch : List BlitReq)
    → AllBatches sent
    → IsBatch batch
    → AllBatches (sent ++ (batch ∷ []))
AllBatches-snoc _ batch none_sent b = one_more b none_sent
AllBatches-snoc _ batch (one_more a h) b = one_more a (AllBatches-snoc _ batch h b)

abbrev pub concat : List (List BlitReq) → List BlitReq
concat [] = []
concat (batch ∷ sent) = batch ++ concat sent

concat-snoc :
    (sent : List (List BlitReq)) (batch : List BlitReq)
    → concat (sent ++ (batch ∷ [])) ≡ concat sent ++ batch
concat-snoc [] batch = append-nil batch
concat-snoc (b ∷ sent) batch =
    ap (λ t. b ++ t) (concat-snoc sent batch) ∙ sym (append_assoc b (concat sent) batch)

some_inj : (xs ys : List BlitReq) → some xs ≡ some ys → xs ≡ ys
some_inj xs ys e = cc e

-- The state after the requests `done`: they were sent in batches or wait.
record Sofar (s : Progress) (done : List BlitReq) : Type 0 where
  content : concat s.sent ++ s.pending ≡ done
  batches : AllBatches s.sent
  room : length s.pending < 12

-- The requests that a rectangle adds.
unfoldable pub kept : BlitReq → List BlitReq
kept req = if is_empty req.src_rect || is_empty req.dst_rect then [] else req ∷ []

submit-Sofar :
    (driver : Driver) (s : Progress) (done : List BlitReq)
    → concat s.sent ++ s.pending ≡ done
    → AllBatches s.sent
    → IsBatch s.pending
    → Sofar (submit driver s) done
unfolding submit
submit-Sofar driver s done e a b = record {
  content = append-nil _ ∙ concat-snoc s.sent s.pending ∙ e;
  batches = AllBatches-snoc s.sent s.pending a b;
  room = omega arith;
}

enqueue-Sofar :
    (driver : Driver) (req : BlitReq) (s : Progress) (done : List BlitReq)
    → Sofar s done
    → Sofar (enqueue driver req s) (done ++ kept req)
unfolding enqueue kept
enqueue-Sofar driver req s done h =
    elim (Bool-cases (is_empty req.src_rect || is_empty req.dst_rect)) [
      | inl e ↦ rw (e, append-nil) h
      | inr e ↦ elim (Bool-cases (suc (length s.pending) == 12)) [
        | inl f ↦
            rw (e, f)
              (submit-Sofar driver (record s { pending = s.pending ++ (req ∷ []) }) _ grown
                h.batches (omega (arith, size), omega (arith, size, h.room)))
        | inr f ↦
            rw (e, f)
              (record { content = grown; batches = h.batches; room = ground (arith, size, h.room) })
      ]
    ]
  where
    grown : concat s.sent ++ (s.pending ++ (req ∷ [])) ≡ done ++ (req ∷ [])
    grown =
        sym (append_assoc (concat s.sent) s.pending (req ∷ []))
        ∙ ap (λ t. t ++ (req ∷ [])) h.content

    size : length (s.pending ++ (req ∷ [])) ≡ suc (length s.pending)
    size = omega (arith, length-append s.pending (req ∷ []))

module _ (k : Formats) (f : FlagBits) (msm7k : Bool) (ctx : Context) (driver : Driver)
    (dst src : Image) (dst_rect src_rect : Rect) where
  -- The requests that are not empty, in the order of the region; none where one divides by 0.
  unfoldable pub wanted : List Rect → Option (List BlitReq)
  unfolding kept
  wanted [] = some []
  wanted (clip ∷ region) = do
    req ← request k f msm7k ctx dst src dst_rect src_rect clip
    rest ← wanted region
    some (kept req ++ rest)

  -- What the loop leaves, for the requests `done` before it and `reqs` in it.
  record Scanned (region : List Rect) (s : Progress) (done reqs : List BlitReq) : Type 0 where
    end : Progress
    so_far : List BlitReq
    rest : List BlitReq
    result : scan k f msm7k ctx driver dst src dst_rect src_rect region s ≡ some end
    state : Sofar end so_far
    split : so_far ++ rest ≡ done ++ reqs
    complete : is_zero end.status ≡ true → rest ≡ []

  scan-Scanned :
      (region : List Rect) (s : Progress) (done reqs : List BlitReq)
      → Sofar s done
      → wanted region ≡ some reqs
      → Scanned region s done reqs
  unfolding scan wanted
  scan-Scanned [] s done reqs h e = record {
    end = s;
    so_far = done;
    rest = [];
    result = refl;
    state = h;
    split = ground arith;
    complete = λ z. refl;
  }
  scan-Scanned (clip ∷ region) s done reqs h e =
      let (req, now, later) =
        bind-some (request k f msm7k ctx dst src dst_rect src_rect clip) _ reqs e in
      let (tail, next, joined) = bind-some (wanted region) _ reqs later in
      let ih =
        scan-Scanned region (enqueue driver req s) (done ++ kept req) tail
          (enqueue-Sofar driver req s done h) next in
      elim (Bool-cases (is_zero s.status)) [
        | inl z ↦ record {
          end = ih.end;
          so_far = ih.so_far;
          rest = ih.rest;
          result = rw (z, now) ih.result;
          state = ih.state;
          split =
              ih.split
              ∙ append_assoc done (kept req) tail
              ∙ ap (λ t. done ++ t) (some_inj _ _ joined);
          complete = ih.complete;
        }
        | inr z ↦ record {
          end = s;
          so_far = done;
          rest = reqs;
          result = rw z refl;
          state = h;
          split = refl;
          complete = λ o. absurd (cc (z, o));
        }
      ]

  flush-Sofar :
      (s : Progress) (done : List BlitReq)
      → Sofar s done
      → Sofar (flush k f msm7k ctx driver s) done
  unfolding flush
  flush-Sofar s done h = elim (Bool-cases (is_zero s.status && ltb 0 (length s.pending))) [
    | inl e ↦
        rw e (
          submit-Sofar driver s done h.content h.batches (ground (arith, e), omega (arith, h.room)))
    | inr e ↦ rw e h
  ]

  -- A status of 0 leaves nothing waiting.
  flush_empty :
      (s : Progress)
      → is_zero (flush k f msm7k ctx driver s).status ≡ true
      → (flush k f msm7k ctx driver s).pending ≡ []
  unfolding flush submit
  flush_empty s z = elim (Bool-cases (is_zero s.status && ltb 0 (length s.pending))) [
    | inl e ↦ rw e refl
    | inr e ↦ rw e (nothing s.pending (ground (arith, e, rw e at z)))
  ]
    where
      nothing : (xs : List BlitReq) → ltb 0 (length xs) ≡ false → xs ≡ []
      nothing [] e = refl
      nothing (x ∷ xs) e = absurd (ground arith)

  flush_status :
      (s : Progress)
      → is_zero (flush k f msm7k ctx driver s).status ≡ true
      → is_zero s.status ≡ true
  unfolding flush
  flush_status s z = elim (Bool-cases (is_zero s.status)) [ inl e ↦ e | inr e ↦ rw e at z ]

  -- What the driver was given, in a result of `stretch_copybit`.
  pub record Delivered (result : Option (ℤ × List (List BlitReq))) (reqs : List BlitReq)
      : Type 0 where
    pub status : ℤ
    pub sent : List (List BlitReq)
    pub rest : List BlitReq
    pub returns : result ≡ some (status, sent)
    pub batches : AllBatches sent
    pub split : concat sent ++ rest ≡ reqs
    pub complete : (is_zero status ≡ false) ⊎ (rest ≡ [])

  -- Where no check refuses the call and no request divides by 0, stretch_copybit returns; the
  -- lists that the driver gets have 1 to 12 requests each, and in order they are the requests that
  -- are not empty, all of them where the status is 0 and a first part otherwise, for every driver.
  pub stretch_copybit-Delivered :
      (errno : Errno) (region : List Rect) (reqs : List BlitReq)
      → is_refused k f msm7k ctx driver dst src src_rect ≡ false
      → wanted region ≡ some reqs
      → Delivered (stretch_copybit k f msm7k ctx driver errno dst src dst_rect src_rect region) reqs
  unfolding stretch_copybit
  stretch_copybit-Delivered errno region reqs h e =
      let start : Progress = record { pending = []; status = pos 0; sent = [] } in
      let r =
        scan-Scanned region start [] reqs
          (record { content = refl; batches = none_sent; room = omega arith }) e in
      let last = flush k f msm7k ctx driver r.end in
      let sofar = flush-Sofar r.end r.so_far r.state in
      record {
        status = last.status;
        sent = last.sent;
        rest = last.pending ++ r.rest;
        returns = rw (h, r.result) refl;
        batches = sofar.batches;
        split =
            sym (append_assoc (concat last.sent) last.pending r.rest)
            ∙ ap (λ t. t ++ r.rest) sofar.content
            ∙ r.split;
        complete = elim (Bool-cases (is_zero last.status)) [
          | inl z ↦ inr (rw (flush_empty r.end z) (r.complete (flush_status r.end z)))
          | inr z ↦ inl z
        ];
      }
