-- ===== src/Mailbox/Tests.antt =====
-- Runs of the mailbox (src/ccm_mbox.c), and the theorems about it at them.
use nfp_drv_kmods.Base.{ℕ, ◌+◌, ◌≡◌, refl, true, false, none, List, [], ◌∷◌, ◌++◌, ok, arith, ◌<◌}
use nfp_drv_kmods.Mailbox.{Skb, Caps, queued, max_msg}
use nfp_drv_kmods.Mailbox.CopyIn.{write_tlv, tlv_end, copy_in, Write}
use nfp_drv_kmods.Mailbox.CopyIn.Bounds.{
  Below, batch_reserved, IsPrepared, copy_in-Below, copy_in-past_end,
}
use nfp_drv_kmods.Mailbox.Queue.{with_hdr, choose_batch}
use nfp_drv_kmods.Mailbox.System.{
  System, runner, find, start, Reaches, here, then_step, send, send_posted, communicate, post,
}
use nfp_drv_kmods.Mailbox.System.Invariant.{Inv}
use nfp_drv_kmods.Mailbox.System.Reach.{Reaches-Inv}
use nfp_drv_kmods.Mailbox.System.Quiet.{Quiet, Reaches-Quiet, start-Inv}
use nfp_drv_kmods.Mailbox.System.Drain.{Drained, Reaches-Drained}

abbrev test_caps : Caps
test_caps = record { mbox_off = 64; mbox_len = 256; mbox_cmsg_types = 0xff }

-- A request of 12 bytes whose reply may take the whole mailbox.
abbrev sample : ℕ → Skb
sample id = record {
  id = id;
  len = 12;
  words = λ i. i;
  room = 256;
  state = queued;
  failure = none;
  max_len = 240;
  exp_reply = 0;
  posted = false;
}

-- The first message is sent and its thread runs; a second one is posted behind it.
abbrev first_sent : System
first_sent = record {
  mbox = record {
    queue = with_hdr (sample 1) 3 0 ∷ [];
    tag = 1;
    runq_work = false;
    finished_skbs = [];
  };
  owner = runner 1;
}

abbrev posted_skb : Skb
posted_skb = record (sample 2) { posted = true }

abbrev second_posted : System
second_posted = record {
  mbox = record {
    queue = with_hdr (sample 1) 3 0 ∷ with_hdr posted_skb 4 1 ∷ [];
    tag = 2;
    runq_work = false;
    finished_skbs = [];
  };
  owner = runner 1;
}

first_step : communicate test_caps start (sample 1) 3 false ≡ ok first_sent
unfolding communicate
first_step = refl

second_step : post first_sent (sample 2) 4 true ≡ ok second_posted
unfolding post
second_step = refl

not_in_first : find 2 first_sent.mbox.queue ≡ none
unfolding find
not_in_first = refl

not_in_start : find 1 start.mbox.queue ≡ none
unfolding find
not_in_start = refl

steps : Reaches test_caps start second_posted
steps =
    then_step
      (then_step (here start)
        (send start first_sent (sample 1) 3 false not_in_start refl refl first_step))
      (send_posted first_sent second_posted (sample 2) 4 true not_in_first refl second_step)

Reaches-Inv_example : Inv second_posted
Reaches-Inv_example = Reaches-Inv test_caps start second_posted steps start-Inv

Reaches-Quiet_example : Quiet test_caps second_posted
Reaches-Quiet_example = Reaches-Quiet test_caps second_posted steps

Reaches-Drained_example : Drained test_caps (λ s. none) second_posted
Reaches-Drained_example = Reaches-Drained test_caps second_posted (λ s. none) steps

sample-IsPrepared : IsPrepared (sample 1)
sample-IsPrepared = record { holds = omega arith }

copy_in-Below_example :
    let (queue', last) = choose_batch test_caps (sample 1 ∷ []) in
    Below (64 + 256 + batch_reserved last queue') (copy_in test_caps last queue')
copy_in-Below_example = copy_in-Below test_caps (sample 1) [] (sample-IsPrepared, tt) (omega arith)

is_max : 240 ≡ max_msg test_caps
unfolding max_msg
is_max = refl

copy_in-past_end_example :
    (writes : List Write) × (off : ℕ) × (copy_in test_caps 1 (sample 1 ∷ [])
      ≡ writes ++ (write_tlv off tlv_end 0 ∷ []))
    × (64 + 256 < off + 4)
copy_in-past_end_example =
    copy_in-past_end test_caps (sample 1) is_max (omega arith) (omega arith) (omega arith)
