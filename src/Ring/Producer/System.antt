-- ===== src/Ring/Producer/System.antt =====
-- One producer ring shared with the kernel. `Tracks` reads each word as the low 32 bits of a count
-- that never wraps.
use fast_socket_rs.Prelude.{
  ℕ, ◌+◌, ◌^◌, ◌≤◌, ◌<◌, ◌≡◌, ◌≢◌, refl, ◌⊎◌, inl, inr, Bool, true, false, Option, none, some,
  arith, Bool-cases, leb, leb→le, ltb, ◌==◌, ==_iff,
}
use fast_socket_rs.Prelude.Words.{as_u32, wrapping_add, wrapping_sub}
use fast_socket_rs.Ring.{Words, RingRange}
use fast_socket_rs.Ring.Producer.{
  RingProducer, new, sync, produce, produce_many, commit, available, take_one, take_many, in_flight,
}

pub record Ring : Type 0 where
  pub words : Words
  pub cursor : RingProducer

-- The unbounded counts behind the four words: reserved and published by userspace, consumed by the
-- kernel, and consumed as userspace last saw it.
pub record Counts : Type 0 where
  pub reserved : ℕ
  pub published : ℕ
  pub consumed : ℕ
  pub seen : ℕ

pub record Tracks (s : Ring) (c : Counts) : Type 0 where
  pub size_fits : s.cursor.size < 2 ^ 32
  pub producer : s.words.producer ≡ as_u32 c.published
  pub consumer : s.words.consumer ≡ as_u32 c.consumed
  pub cached_producer : s.cursor.cached_producer ≡ as_u32 c.reserved
  pub cached_consumer : s.cursor.cached_consumer ≡ as_u32 c.seen
  pub seen_le : c.seen ≤ c.consumed
  pub consumed_le : c.consumed ≤ c.published
  pub published_le : c.published ≤ c.reserved
  pub room : c.reserved ≤ c.seen + s.cursor.size

in_flight-Tracks : (s : Ring) (c : Counts) → Tracks s c → in_flight s.cursor + c.seen ≡ c.reserved
in_flight-Tracks s c t = omega arith

not_full :
    (s : Ring) (c : Counts)
    → Tracks s c
    → leb s.cursor.size (in_flight s.cursor) ≡ false
    → c.reserved < c.seen + s.cursor.size
not_full s c t e = ground (arith, in_flight-Tracks s c t)

-- With the counts in order, `available` is the room left by the last consumer index read: the
-- subtraction of the source does not underflow.
pub available-Tracks :
    (s : Ring) (c : Counts) → Tracks s c → available s.cursor + c.reserved ≡ c.seen + s.cursor.size
unfolding available
available-Tracks s c t = omega arith

-- The state after a call that returns a new cursor.
abbrev pub with_cursor : Ring → RingProducer → Ring
with_cursor s r = record s { cursor = r }

-- The counts after userspace has reserved `n` indexes, with the consumer index last read at `k`.
abbrev pub reserve : Counts → ℕ → ℕ → Counts
reserve c k n = record c { reserved = c.reserved + n; seen = k }

-- The consumer index last read only moves up to the kernel's.
refresh-Tracks :
    (s : Ring) (c : Counts)
    → Tracks s c
    → Tracks (with_cursor s (sync s.words false s.cursor)) (record c { seen = c.consumed })
unfolding sync
refresh-Tracks s c t = omega arith

advance-Tracks :
    (s : Ring) (c : Counts) (n : ℕ)
    → Tracks s c
    → c.reserved + n ≤ c.seen + s.cursor.size
    → Tracks
        (with_cursor s
          (record (s.cursor) { cached_producer = wrapping_add s.cursor.cached_producer n }))
        (reserve c c.seen n)
advance-Tracks s c n t h = omega arith

-- An index that `produce` returns is the count of those reserved, which the kernel has released
-- (it lies less than a ring's size above the consumed count). If it returns none, the ring holds
-- `size` indexes that the kernel has not consumed, and the cursor saw that.
abbrev pub Produced : Ring → Counts → Option ℕ × RingProducer → Type 0
Produced s c (none, r) =
    (c.reserved ≡ c.consumed + s.cursor.size)
    × Tracks (with_cursor s r) (record c { seen = c.consumed })
Produced s c (some i, r) =
    (i ≡ as_u32 c.reserved)
    × (c.reserved < c.consumed + s.cursor.size)
    × ((k : ℕ) × Tracks (with_cursor s r) (reserve c k 1))

take_one-Produced :
    (s : Ring) (c : Counts)
    → Tracks s c
    → c.reserved < c.seen + s.cursor.size
    → Produced s c (take_one s.cursor)
unfolding take_one
take_one-Produced s c t h =
    (t.cached_producer, omega arith, (c.seen, advance-Tracks s c 1 t (omega arith)))

-- On a ring whose words track counts in order, `produce` returns the next reserved index, which
-- the kernel has released, and reserves it; or it returns none and the ring is full by the
-- kernel's present index.
pub produce-Produced :
    (s : Ring) (c : Counts) → Tracks s c → Produced s c (produce s.words s.cursor)
unfolding produce
produce-Produced s c t = elim (Bool-cases (leb s.cursor.size (in_flight s.cursor))) [
  | inl full ↦
      let s' = with_cursor s (sync s.words false s.cursor) in
      let c' : Counts = record c { seen = c.consumed } in
      let t' = refresh-Tracks s c t in
      elim (Bool-cases (leb s'.cursor.size (in_flight s'.cursor))) [
        | inl e ↦ rw (full, e) (omega (arith, leb→le _ _ e, in_flight-Tracks s' c' t'), t')
        | inr e ↦ rw (full, e) (take_one-Produced s' c' t' (not_full s' c' t' e))
      ]
  | inr e ↦ rw e (take_one-Produced s c t (not_full s c t e))
]

-- What `produce_many` returns: a run of at most `wanted` indexes that starts at the count of those
-- reserved and stays within the room that the kernel has released; it is shorter than `wanted` only
-- if it fills the ring.
pub record ProducedMany (s : Ring) (c : Counts) (wanted : ℕ) (out : RingRange × RingProducer)
    : Type 0 where
  pub at_most : out.0.count ≤ wanted
  pub start_at : wanted ≢ 0 → out.0.start ≡ as_u32 c.reserved
  pub within : out.0.count ≢ 0 → c.reserved + out.0.count ≤ c.consumed + s.cursor.size
  pub short_only_if_full :
      out.0.count < wanted → c.consumed + s.cursor.size ≤ c.reserved + out.0.count
  pub tracks : (k : ℕ) × Tracks (with_cursor s out.1) (reserve c k out.0.count)

-- The two ways to reach `take_many`: the cached room suffices, or it has been read anew.
take_many-ProducedMany :
    (s : Ring) (c : Counts) (wanted : ℕ)
    → Tracks s c
    → (wanted + c.reserved ≤ c.seen + s.cursor.size) ⊎ (c.seen ≡ c.consumed)
    → ProducedMany s c wanted (take_many wanted s.cursor)
unfolding take_many
take_many-ProducedMany s c wanted t h = record {
  at_most = omega arith;
  start_at = λ _. t.cached_producer;
  within = λ _. omega (arith, available-Tracks s c t);
  short_only_if_full = λ short. omega (arith, available-Tracks s c t);
  tracks = (c.seen, advance-Tracks s c _ t (omega (arith, available-Tracks s c t)));
}

seen_afresh :
    (s : Ring) (c : Counts) (wanted : ℕ) (out : RingRange × RingProducer)
    → ProducedMany
        (with_cursor s (sync s.words false s.cursor))
        (record c { seen = c.consumed })
        wanted
        out
    → ProducedMany s c wanted out
unfolding sync
seen_afresh s c wanted out m = record {
  at_most = m.at_most;
  start_at = m.start_at;
  within = m.within;
  short_only_if_full = m.short_only_if_full;
  tracks = m.tracks;
}

-- On a ring whose words track counts in order, `produce_many` reserves a run of at most `wanted`
-- indexes that starts at the next one and that the kernel has released; the run is shorter than
-- wanted only if it fills the ring.
pub produce_many-ProducedMany :
    (s : Ring) (c : Counts) (wanted : ℕ)
    → Tracks s c
    → ProducedMany s c wanted (produce_many s.words wanted s.cursor)
unfolding produce_many
produce_many-ProducedMany s c wanted t = elim (Bool-cases (wanted == 0)) [
  | inl e ↦
      let zero_wanted = (==_iff wanted 0).0 e in
      rw e (record {
        at_most = omega arith;
        start_at = λ ne. absurd (ne zero_wanted);
        within = λ ne. absurd (ne (omega arith));
        short_only_if_full = λ short. omega arith;
        tracks = (c.seen, omega arith);
      })
  | inr e ↦ elim (Bool-cases (ltb (available s.cursor) wanted)) [
    | inl short ↦
        rw (e, short)
          (seen_afresh s c wanted _ (
            take_many-ProducedMany (with_cursor s (sync s.words false s.cursor))
              (record c { seen = c.consumed }) wanted (refresh-Tracks s c t) (inr refl)))
    | inr enough ↦
        rw (e, enough)
          (take_many-ProducedMany s c wanted t (inl (ground (arith, available-Tracks s c t))))
  ]
]

-- A call of userspace or a move of the kernel. `produce` and `produce_many` read the kernel's index
-- at the moment of the call; the kernel consumes what is published, at any time.
pub data Step : Ring → Ring → Type 0 where
  produces : (s : Ring) → Step s (with_cursor s (produce s.words s.cursor).1)
  produces_many :
      (s : Ring) (wanted : ℕ) → Step s (with_cursor s (produce_many s.words wanted s.cursor).1)
  syncs : (s : Ring) (load : Bool) → Step s (with_cursor s (sync s.words load s.cursor))
  commits : (s : Ring) → Step s (record s { words = commit s.cursor s.words })
  consumes :
      (s : Ring) (n : ℕ)
      → n ≤ wrapping_sub s.words.producer s.words.consumer
      → Step s
          (record s { words = record (s.words) { consumer = wrapping_add s.words.consumer n } })

pub data Reach (s : Ring) : Ring → Type 0 where
  here : Reach s s
  next : {t u : Ring} → Reach s t → Step t u → Reach s u

-- A socket's ring before its first call.
unfoldable pub fresh : ℕ → Ring
unfolding new
fresh size = record { words = record { producer = 0; consumer = 0 }; cursor = new size }

Produced-Tracks :
    (s : Ring) (c : Counts) (out : Option ℕ × RingProducer)
    → Produced s c out
    → (c' : Counts) × Tracks (with_cursor s out.1) c'
Produced-Tracks s c (none, r) h = (_, h.1)
Produced-Tracks s c (some i, r) h = (_, h.2.1)

pub Step-Tracks : {s u : Ring} → Step s u → (c : Counts) → Tracks s c → (c' : Counts) × Tracks u c'
unfolding sync commit
Step-Tracks (produces s) c t =
    Produced-Tracks s c (produce s.words s.cursor) (produce-Produced s c t)
Step-Tracks (produces_many s wanted) c t = (_, (produce_many-ProducedMany s c wanted t).tracks.1)
Step-Tracks (syncs s true) c t =
    (record c { reserved = c.published; seen = c.consumed }, omega arith)
Step-Tracks (syncs s false) c t = (record c { seen = c.consumed }, omega arith)
Step-Tracks (commits s) c t = (record c { published = c.reserved }, omega arith)
Step-Tracks (consumes s n h) c t = (record c { consumed = c.consumed + n }, omega arith)

-- For a producer ring of fewer than 2^32 entries that started fresh, after any sequence of calls
-- of userspace and moves of the kernel the four ring words are the low 32 bits of counts with
-- consumed <= published <= reserved, and no more than `size` entries are reserved beyond the
-- consumed ones last seen.
pub Reach-Tracks :
    (size : ℕ) {u : Ring} → size < 2 ^ 32 → Reach (fresh size) u → (c : Counts) × Tracks u c
unfolding fresh
Reach-Tracks size h here =
    (record { reserved = 0; published = 0; consumed = 0; seen = 0 }, omega arith)
Reach-Tracks size h (next r st) = let (c, t) = Reach-Tracks size h r in Step-Tracks st c t
