-- ===== src/Feed.antt =====
-- The bounded backlog of a viewer, `_Client` of src/uniden_r8/feed.py. The frames are bytes; the
-- writer and the wake-up event are left out.
pub mod Newest
use unidenr8_bluetooth.Prelude.{ℕ, zero, suc, ◌+◌, List, [], ◌∷◌, ◌++◌, leb, if◌then◌else◌, length}

-- `CLIENT_QUEUE`
abbrev pub client_queue : ℕ
client_queue = 64

abbrev pub Frame : Type 0
Frame = List ℕ

pub record Client : Type 0 where
  pub queue : List Frame
  pub dropped : ℕ

abbrev pub new_client : Client
new_client = record { queue = []; dropped = 0 }

-- the `while` loop of `offer`, over the queue that it shortens
unfoldable pub make_way : List Frame → ℕ → Client
make_way [] dropped = record { queue = []; dropped = dropped }
make_way (frame ∷ queue) dropped =
    let shorter = make_way queue (dropped + 1) in
    if leb client_queue (length (frame ∷ queue))
    then shorter
    else record { queue = frame ∷ queue; dropped = dropped }

-- `offer`
unfoldable pub offer : List ℕ → Client → Client
unfolding make_way
offer frame c =
    let c' = make_way c.queue c.dropped in
    record { queue = c'.queue ++ (frame ∷ []); dropped = c'.dropped }

-- the frames of a run, oldest first
unfoldable pub offers : List Frame → Client → Client
unfolding offer
offers [] c = c
offers (frame ∷ frames) c = offers frames (offer frame c)
