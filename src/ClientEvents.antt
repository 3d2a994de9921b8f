-- ===== src/ClientEvents.antt =====
-- The events that a client's listeners are given for a session: `connectEvents`, `dispatch`,
-- `recoverEvents`, `recoverSnapshot` and `notify` of packages/client/src/index.ts. One session is
-- modelled, while a listener is subscribed to it; what happens to others does not touch its entries.
-- An event is its sequence number. The awaits of a recovery are points where other steps come between.
pub mod CatchUp
pub mod Chain
pub mod Order
pub mod Pages
pub mod Places
pub mod Reconnect
pub mod Tests
use uma_agent.Base.{
  ℕ, suc, ◌+◌, ◌≤◌, ◌≡◌, Bool, true, false, not, ◌&&◌, ◌||◌, ◌==◌, Option, none, some, List, [],
  ◌∷◌, if◌then◌else◌, leb, ltb, max, is_some_b, or_else, All,
}

-- What listeners are given, latest first. `gave_up` is no call: it marks where `lastSequences.delete`
-- forgets the place.
pub data Told : Type 0 where
  event snapshot : ℕ → Told
  delta gave_up : Told

-- The recovery that is running, at its await: a page behind `cursor`, the snapshot in the `catch` of
-- `recoverEvents`, or a snapshot of `recoverSnapshot`. The last number of the two is the sequence the
-- server had reached when the snapshot was asked for.
pub data Work : Type 0 where
  idle : Work
  paging : ℕ → ℕ → ℕ → Work
  falling_back : ℕ → Work
  snapshots : ℕ → ℕ → Work

-- `last` and `target` are the session's entries of `lastSequences` and `recoveryTargets`; `server` is
-- the sequence the server has reached.
pub record Feed : Type 0 where
  pub last : Option ℕ
  pub target : Option ℕ
  pub work : Work
  pub told : List Told
  pub server : ℕ

-- `subscribeSessions` of the session with what is known of its place.
abbrev pub subscribed : Option ℕ → ℕ → Feed
subscribed last server = record {
  last = last;
  target = none;
  work = idle;
  told = [];
  server = server;
}

-- The lines of `dispatch` for an event the client is not recovering for.
abbrev pub dispatch_behind : Option ℕ → ℕ → Feed → Feed
dispatch_behind none n f = record f { last = some n; told = event n ∷ f.told }
dispatch_behind (some previous) n f =
    if leb n previous
    then f
    else if not (n == suc previous)
    then record f { target = some n; work = paging previous (suc previous) n }
    else record f { last = some n; told = event n ∷ f.told }

abbrev pub dispatch_by : Option ℕ → ℕ → Feed → Feed
dispatch_by none n f = dispatch_behind f.last n f
dispatch_by (some recovering_to) n f = record f { target = some (max recovering_to n) }

-- `dispatch` of an event of the log.
unfoldable pub dispatch : ℕ → Feed → Feed
dispatch n f = dispatch_by f.target n f

-- A piece of a streamed message is passed on at once.
unfoldable pub dispatch_delta : Feed → Feed
dispatch_delta f = record f { told = delta ∷ f.told }

-- The start of `recoverSnapshot(sessionId, sequence)`, up to its first await.
abbrev pub snapshot_by : Option ℕ → ℕ → Feed → Feed
snapshot_by none sequence f = record f {
  target = some sequence;
  work = snapshots sequence f.server;
}
snapshot_by (some current) sequence f = record f { target = some (max current sequence) }

unfoldable pub recover_snapshot : ℕ → Feed → Feed
recover_snapshot sequence f = snapshot_by f.target sequence f

-- What `open` of a socket does for the session.
unfoldable pub open_socket : Feed → Feed
unfolding recover_snapshot
open_socket f = if is_some_b f.last then f else recover_snapshot 0 f

-- The `finally` of a recovery.
abbrev pub finish : Feed → Feed
finish f = record f { target = none; work = idle }

-- The loop on the events of a page: the state behind it, and what is expected next unless a number
-- is not the expected one, which throws.
unfoldable pub read_page : List ℕ → ℕ → Feed → Feed × Option ℕ
read_page [] expected f = (f, some expected)
read_page (n ∷ ns) expected f =
    let rest = read_page ns (suc expected) (record f { last = some n; told = event n ∷ f.told }) in
    if n == expected then rest else (f, none)

abbrev pub fall_back : Feed → Feed
fall_back f = record f { work = falling_back f.server }

abbrev pub is_nil : List ℕ → Bool
is_nil [] = true
is_nil (n ∷ ns) = false

-- The lines behind that loop.
abbrev pub behind_page : Bool → ℕ → Bool → ℕ → Feed × Option ℕ → Feed
behind_page empty next has_more observed (f, none) = fall_back f
behind_page empty next has_more observed (f, some expected) =
    let target = max observed (or_else f.target observed) in
    if empty && ltb next target
    then fall_back f
    else if has_more || ltb next target
    then record f { work = paging next expected observed }
    else finish f

-- The answer to `getSessionEvents`, with its `nextSequence` and `hasMore`.
unfoldable pub page_by : Work → List ℕ → ℕ → Bool → Feed → Feed
unfolding read_page
page_by (paging cursor expected observed) events next has_more f =
    behind_page (is_nil events) next has_more observed (read_page events expected f)
page_by w events next has_more f = f

unfoldable pub take_page : List ℕ → ℕ → Bool → Feed → Feed
unfolding page_by
take_page events next has_more f = page_by f.work events next has_more f

-- The answer to `getSession`.
abbrev pub snapshot_answer : Work → ℕ → Feed → Feed
snapshot_answer (falling_back floor) n f =
    finish (record f { told = snapshot n ∷ f.told; last = some n })
snapshot_answer (snapshots requested floor) n f =
    let current = or_else f.target requested in
    if current == requested
    then finish (record f { told = snapshot n ∷ f.told; last = some (max current n) })
    else record f { told = snapshot n ∷ f.told; work = snapshots current f.server }
snapshot_answer w n f = f

unfoldable pub take_snapshot : ℕ → Feed → Feed
take_snapshot n f = snapshot_answer f.work n f

-- An answer that is an error.
abbrev pub failure_by : Work → Feed → Feed
failure_by (paging cursor expected observed) f = fall_back f
failure_by (falling_back floor) f = finish (record f { last = none; told = gave_up ∷ f.told })
failure_by (snapshots requested floor) f =
    finish (record f { last = none; told = gave_up ∷ f.told })
failure_by idle f = f

unfoldable pub take_failure : Feed → Feed
take_failure f = failure_by f.work f

-- A listener that throws ends the reading of a page, behind the events it was given, or a recovery at
-- the snapshot it was given.
unfoldable pub page_thrown : Work → List ℕ → Feed → Feed
unfolding read_page
page_thrown (paging cursor expected observed) events f = fall_back (read_page events expected f).0
page_thrown w events f = f

abbrev pub give_up : ℕ → Feed → Feed
give_up n f = finish (record f { last = none; told = gave_up ∷ snapshot n ∷ f.told })

unfoldable pub snapshot_thrown : Work → ℕ → Feed → Feed
snapshot_thrown (falling_back floor) n f = give_up n f
snapshot_thrown (snapshots requested floor) n f = give_up n f
snapshot_thrown w n f = f

-- The sequence the server had reached when the work asked for its snapshot.
abbrev pub floor_of : Work → ℕ
floor_of (snapshots requested floor) = floor
floor_of (falling_back floor) = floor
floor_of w = 0

infix 40 ◌⟶◌ ◌⟶*◌
-- The steps. An event that is heard or stands in a page is of the server's log, and a snapshot is one
-- of the server between the request and its answer. A page may hold its events in any order, with gaps
-- and repetitions. A listener that throws at an event that is heard changes nothing, since the place is
-- noted before.
pub data ◌⟶◌ : Feed → Feed → Type 0 where
  emits : {f : Feed} → f ⟶ record f { server = suc f.server }
  hears : {f : Feed} (n : ℕ) → n ≤ f.server → f ⟶ dispatch n f
  hears_delta : {f : Feed} → f ⟶ dispatch_delta f
  opens : {f : Feed} → f ⟶ open_socket f
  pages :
      {f : Feed} (events : List ℕ) (next : ℕ) (has_more : Bool)
      → All (λ n. n ≤ f.server) events
      → f ⟶ take_page events next has_more f
  page_throws :
      {f : Feed} (events : List ℕ)
      → All (λ n. n ≤ f.server) events
      → f ⟶ page_thrown f.work events f
  answers : {f : Feed} (n : ℕ) → floor_of f.work ≤ n → n ≤ f.server → f ⟶ take_snapshot n f
  snapshot_throws :
      {f : Feed} (n : ℕ) → floor_of f.work ≤ n → n ≤ f.server → f ⟶ snapshot_thrown f.work n f
  fails : {f : Feed} → f ⟶ take_failure f

pub data ◌⟶*◌ : Feed → Feed → Type 0 where
  stays : {f : Feed} → f ⟶* f
  goes : {f g h : Feed} → f ⟶ g → g ⟶* h → f ⟶* h
