-- ===== src/Appkit/Broadcaster.antt =====
-- appkit/broadcaster.go: the events of an app key, for each of its subscribers.
pub mod Channels
pub mod Counts
use soothe_client_go.Prelude.{
  ℕ, suc, ◌+◌, String, Bool, true, false, Option, none, some, List, [], ◌∷◌, ◌++◌, ◌==◌, length,
  is_empty, lookup, insert, delete, ltb, eqb, if◌then◌else◌,
}

-- SSEEvent, with its data as a text
pub record SseEvent : Type 0 where
  pub type' : String
  pub data' : String

-- A subscriber's channel: the number stands for the channel's identity, and the subscriber id that
-- uuid makes is left out, since each channel has its own.
pub record Channel : Type 0 where
  pub chan : ℕ
  pub queue : List SseEvent

-- SSEBroadcaster, with the channels that were closed, the last one first, and the number of the next
-- channel that is made
pub record Broadcaster : Type 0 where
  pub subscribers : List (String × List Channel)
  pub closed : List ℕ
  pub next_chan : ℕ

-- NewSSEBroadcaster
abbrev pub new_sse_broadcaster : Broadcaster
new_sse_broadcaster = record { subscribers = []; closed = []; next_chan = 0 }

abbrev pub channel_capacity : ℕ
channel_capacity = 100

-- `b.subscribers[appKey]`, whose nil map is empty
abbrev pub subs_or_none : Option (List Channel) → List Channel
subs_or_none none = []
subs_or_none (some subs) = subs

-- Subscribe: the number of the channel
unfoldable pub subscribe : String → Broadcaster → ℕ × Broadcaster
subscribe key b =
    let subs = subs_or_none (lookup key b.subscribers) in
    (
      b.next_chan,
      record b {
        subscribers =
            insert key (subs ++ record { chan = b.next_chan; queue = [] } ∷ []) b.subscribers;
        next_chan = suc b.next_chan;
      },
    )

-- The subscribers without the first one with that channel, and the channels that are closed for it
unfoldable pub drop_channel : ℕ → List Channel → List Channel × List ℕ
drop_channel ch [] = ([], [])
drop_channel ch (c ∷ subs) =
    let (rest, gone) = drop_channel ch subs in
    if eqb c.chan ch then (subs, c.chan ∷ []) else (c ∷ rest, gone)

-- The end of Unsubscribe: an empty map of subscribers is deleted
unfoldable pub put_subs :
    String → List Channel → List (String × List Channel) → List (String × List Channel)
put_subs key subs m = if is_empty subs then delete key m else insert key subs m

unfoldable pub unsubscribe_from : Option (List Channel) → String → ℕ → Broadcaster → Broadcaster
unfolding drop_channel put_subs
unsubscribe_from none key ch b = b
unsubscribe_from (some subs) key ch b =
    let (rest, gone) = drop_channel ch subs in
    record b { subscribers = put_subs key rest b.subscribers; closed = gone ++ b.closed }

-- Unsubscribe
unfoldable pub unsubscribe : String → ℕ → Broadcaster → Broadcaster
unfolding unsubscribe_from
unsubscribe key ch b = unsubscribe_from (lookup key b.subscribers) key ch b

-- `select { case ch <- event: default: }`
abbrev pub offer : SseEvent → Channel → Channel
offer ev c =
    if ltb (length c.queue) channel_capacity then record c { queue = c.queue ++ ev ∷ [] } else c

unfoldable pub offer_all : SseEvent → List Channel → List Channel
offer_all ev [] = []
offer_all ev (c ∷ subs) = offer ev c ∷ offer_all ev subs

unfoldable pub broadcast_to : Option (List Channel) → String → SseEvent → Broadcaster → Broadcaster
unfolding offer_all
broadcast_to none key ev b = b
broadcast_to (some subs) key ev b = record b {
  subscribers = insert key (offer_all ev subs) b.subscribers;
}

-- Broadcast
unfoldable pub broadcast : String → SseEvent → Broadcaster → Broadcaster
unfolding broadcast_to
broadcast key ev b = broadcast_to (lookup key b.subscribers) key ev b

abbrev pub chans_of : List Channel → List ℕ
chans_of [] = []
chans_of (c ∷ subs) = c.chan ∷ chans_of subs

unfoldable pub close_for : Option (List Channel) → String → Broadcaster → Broadcaster
close_for none key b = b
close_for (some subs) key b = record b {
  subscribers = delete key b.subscribers;
  closed = chans_of subs ++ b.closed;
}

-- Close
unfoldable pub close : String → Broadcaster → Broadcaster
unfolding close_for
close key b = close_for (lookup key b.subscribers) key b

abbrev pub all_chans : List (String × List Channel) → List ℕ
all_chans [] = []
all_chans ((key, subs) ∷ more) = chans_of subs ++ all_chans more

-- CloseAll
unfoldable pub close_all : Broadcaster → Broadcaster
close_all b = record b { subscribers = []; closed = all_chans b.subscribers ++ b.closed }
