-- ===== src/Ring/Consumer/System.antt =====
-- One consumer ring shared with the kernel, which publishes into it at any time. `Tracks` reads
-- each word as the low 32 bits of a count that never wraps.
use fast_socket_rs.Prelude.{
  ℕ, ◌+◌, ◌^◌, ◌≤◌, ◌<◌, ◌≡◌, ◌≢◌, refl, ◌⊎◌, inl, inr, false, Option, none, some, arith,
  Bool-cases, ltb, ◌==◌, ==_iff,
}
use fast_socket_rs.Prelude.Words.{as_u32, wrapping_add, wrapping_sub}
use fast_socket_rs.Ring.{Words, RingRange}
use fast_socket_rs.Ring.Consumer.{
  RingConsumer, new, sync, consume, consume_many, release, available, take_one, take_many,
}

-- `size` is the number of descriptors that the kernel was given for this ring.
pub record Ring : Type 0 where
  pub size : ℕ
  pub words : Words
  pub cursor : RingConsumer

-- The unbounded counts behind the words: published by the kernel, published as userspace last saw
-- it, taken by userspace, and released to the kernel.
pub record Counts : Type 0 where
  pub published : ℕ
  pub seen : ℕ
  pub taken : ℕ
  pub released : ℕ

pub record Tracks (s : Ring) (c : Counts) : Type 0 where
  pub size_fits : s.size < 2 ^ 32
  pub producer : s.words.producer ≡ as_u32 c.published
  pub consumer : s.words.consumer ≡ as_u32 c.released
  pub cached_producer : s.cursor.cached_producer ≡ as_u32 c.seen
  pub cached_consumer : s.cursor.cached_consumer ≡ as_u32 c.taken
  pub released_le : c.released ≤ c.taken
  pub taken_le : c.taken ≤ c.seen
  pub seen_le : c.seen ≤ c.published
  pub room : c.published ≤ c.released + s.size

abbrev pub with_cursor : Ring → RingConsumer → Ring
with_cursor s r = record s { cursor = r }

-- The counts after userspace has taken `n` indexes, with the producer index last read at `k`.
abbrev pub taking : Counts → ℕ → ℕ → Counts
taking c k n = record c { taken = c.taken + n; seen = k }

available-Tracks : (s : Ring) (c : Counts) → Tracks s c → available s.cursor + c.taken ≡ c.seen
unfolding available
available-Tracks s c t = omega arith

refresh-Tracks :
    (s : Ring) (c : Counts)
    → Tracks s c
    → Tracks (with_cursor s (sync s.words s.cursor)) (record c { seen = c.published })
unfolding sync
refresh-Tracks s c t = omega arith

advance-Tracks :
    (s : Ring) (c : Counts) (n : ℕ)
    → Tracks s c
    → c.taken + n ≤ c.seen
    → Tracks
        (with_cursor s
          (record (s.cursor) { cached_consumer = wrapping_add s.cursor.cached_consumer n }))
        (taking c c.seen n)
advance-Tracks s c n t h = omega arith

-- An index that `consume` returns is the count of those taken, and the kernel has published it. If
-- it returns none, userspace has taken all that the kernel has published.
abbrev pub Consumed : Ring → Counts → Option ℕ × RingConsumer → Type 0
Consumed s c (none, r) =
    (c.taken ≡ c.published) × Tracks (with_cursor s r) (record c { seen = c.published })
Consumed s c (some i, r) =
    (i ≡ as_u32 c.taken)
    × (c.taken < c.published)
    × ((k : ℕ) × Tracks (with_cursor s r) (taking c k 1))

take_one-Consumed :
    (s : Ring) (c : Counts)
    → Tracks s c
    → (s.cursor.cached_consumer == s.cursor.cached_producer) ≡ false
    → Consumed s c (take_one s.cursor)
unfolding take_one
take_one-Consumed s c t e =
    let below : c.taken < c.seen = ground arith in
    (t.cached_consumer, omega arith, (c.seen, advance-Tracks s c 1 t (omega arith)))

-- On a ring whose words track counts in order, `consume` takes the next index, which the kernel
-- has published; or it returns none and nothing published is left.
pub consume-Consumed :
    (s : Ring) (c : Counts) → Tracks s c → Consumed s c (consume s.words s.cursor)
unfolding consume
consume-Consumed s c t = elim (Bool-cases (s.cursor.cached_consumer == s.cursor.cached_producer)) [
  | inl drained ↦
      let s' = with_cursor s (sync s.words s.cursor) in
      let c' : Counts = record c { seen = c.published } in
      let t' = refresh-Tracks s c t in
      elim (Bool-cases (s'.cursor.cached_consumer == s'.cursor.cached_producer)) [
        | inl e ↦
            let same = (==_iff s'.cursor.cached_consumer s'.cursor.cached_producer).0 e in
            rw (drained, e) (omega arith, t')
        | inr e ↦ rw (drained, e) (take_one-Consumed s' c' t' e)
      ]
  | inr e ↦ rw e (take_one-Consumed s c t e)
]

-- What `consume_many` returns: a run of at most `wanted` published indexes, from the count of those
-- taken; shorter than `wanted` only if it takes all that is published.
pub record ConsumedMany (s : Ring) (c : Counts) (wanted : ℕ) (out : RingRange × RingConsumer)
    : Type 0 where
  pub at_most : out.0.count ≤ wanted
  pub start_at : wanted ≢ 0 → out.0.start ≡ as_u32 c.taken
  pub within : c.taken + out.0.count ≤ c.published
  pub short_only_if_drained : out.0.count < wanted → c.published ≡ c.taken + out.0.count
  pub tracks : (k : ℕ) × Tracks (with_cursor s out.1) (taking c k out.0.count)

take_many-ConsumedMany :
    (s : Ring) (c : Counts) (wanted : ℕ)
    → Tracks s c
    → (wanted + c.taken ≤ c.seen) ⊎ (c.seen ≡ c.published)
    → ConsumedMany s c wanted (take_many wanted s.cursor)
unfolding take_many
take_many-ConsumedMany s c wanted t h = record {
  at_most = omega arith;
  start_at = λ _. t.cached_consumer;
  within = omega (arith, available-Tracks s c t);
  short_only_if_drained = λ short. omega (arith, available-Tracks s c t);
  tracks = (c.seen, advance-Tracks s c _ t (omega (arith, available-Tracks s c t)));
}

seen_afresh :
    (s : Ring) (c : Counts) (wanted : ℕ) (out : RingRange × RingConsumer)
    → ConsumedMany
        (with_cursor s (sync s.words s.cursor))
        (record c { seen = c.published })
        wanted
        out
    → ConsumedMany s c wanted out
unfolding sync
seen_afresh s c wanted out m = record {
  at_most = m.at_most;
  start_at = m.start_at;
  within = m.within;
  short_only_if_drained = m.short_only_if_drained;
  tracks = m.tracks;
}

-- On a ring whose words track counts in order, `consume_many` takes a run of at most `wanted`
-- published indexes that starts at the next one; the run is shorter than wanted only if it takes
-- all that is published.
pub consume_many-ConsumedMany :
    (s : Ring) (c : Counts) (wanted : ℕ)
    → Tracks s c
    → ConsumedMany s c wanted (consume_many s.words wanted s.cursor)
unfolding consume_many
consume_many-ConsumedMany s c wanted t = elim (Bool-cases (wanted == 0)) [
  | inl e ↦
      let zero_wanted = (==_iff wanted 0).0 e in
      rw e (record {
        at_most = omega arith;
        start_at = λ ne. absurd (ne zero_wanted);
        within = omega arith;
        short_only_if_drained = λ short. omega arith;
        tracks = (c.seen, omega arith);
      })
  | inr e ↦ elim (Bool-cases (ltb (available s.cursor) wanted)) [
    | inl short ↦
        rw (e, short)
          (seen_afresh s c wanted _ (
            take_many-ConsumedMany (with_cursor s (sync s.words s.cursor))
              (record c { seen = c.published }) wanted (refresh-Tracks s c t) (inr refl)))
    | inr enough ↦
        rw (e, enough)
          (take_many-ConsumedMany s c wanted t (inl (ground (arith, available-Tracks s c t))))
  ]
]

pub data Step : Ring → Ring → Type 0 where
  consumes : (s : Ring) → Step s (with_cursor s (consume s.words s.cursor).1)
  consumes_many :
      (s : Ring) (wanted : ℕ) → Step s (with_cursor s (consume_many s.words wanted s.cursor).1)
  syncs : (s : Ring) → Step s (with_cursor s (sync s.words s.cursor))
  releases : (s : Ring) → Step s (record s { words = release s.cursor s.words })
  publishes :
      (s : Ring) (n : ℕ)
      → wrapping_sub s.words.producer s.words.consumer + n ≤ s.size
      → Step s
          (record s { words = record (s.words) { producer = wrapping_add s.words.producer n } })

pub data Reach (s : Ring) : Ring → Type 0 where
  here : Reach s s
  next : {t u : Ring} → Reach s t → Step t u → Reach s u

-- A socket's ring before its first call.
unfoldable pub fresh : ℕ → Ring
unfolding new
fresh size = record { size = size; words = record { producer = 0; consumer = 0 }; cursor = new }

Consumed-Tracks :
    (s : Ring) (c : Counts) (out : Option ℕ × RingConsumer)
    → Consumed s c out
    → (c' : Counts) × Tracks (with_cursor s out.1) c'
Consumed-Tracks s c (none, r) h = (_, h.1)
Consumed-Tracks s c (some i, r) h = (_, h.2.1)

Step-Tracks : {s u : Ring} → Step s u → (c : Counts) → Tracks s c → (c' : Counts) × Tracks u c'
unfolding sync release
Step-Tracks (consumes s) c t =
    Consumed-Tracks s c (consume s.words s.cursor) (consume-Consumed s c t)
Step-Tracks (consumes_many s wanted) c t = (_, (consume_many-ConsumedMany s c wanted t).tracks.1)
Step-Tracks (syncs s) c t = (record c { seen = c.published }, omega arith)
Step-Tracks (releases s) c t = (record c { released = c.taken }, omega arith)
Step-Tracks (publishes s n h) c t = (record c { published = c.published + n }, omega arith)

-- For a consumer ring of fewer than 2^32 entries that started fresh, after any sequence of calls
-- of userspace and of the kernel publishing into free entries, the four ring words are the low 32
-- bits of counts with released <= taken <= seen <= published <= released + size.
pub Reach-Tracks_consumer :
    (size : ℕ) {u : Ring} → size < 2 ^ 32 → Reach (fresh size) u → (c : Counts) × Tracks u c
unfolding fresh
Reach-Tracks_consumer size h here =
    (record { published = 0; seen = 0; taken = 0; released = 0 }, omega arith)
Reach-Tracks_consumer size h (next r st) =
    let (c, t) = Reach-Tracks_consumer size h r in Step-Tracks st c t
