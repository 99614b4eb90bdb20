-- ===== src/Net/HandleThread/Tests.antt =====
-- net/handle_thread.h: the life of a thread that handles one packet.
use sails.Prelude.{ℕ, ◌≡◌, refl, false, [], ◌∷◌}
use sails.Prelude.Int.{pos}
use sails.Base.ThreadQueue.{ThreadQueue, done}
use sails.Net.HandleThread.{
  TagRecvData, HandleThread, HandleStatus, new_handle_thread, run, terminate, join, get_status,
  handle_imp,
}

abbrev packet : TagRecvData ℕ
packet = record { uid = 1; packet = 7; ip = 49 ∷ []; port = 80; fd = pos 9; ext_data = 0 }

abbrev one : ThreadQueue (TagRecvData ℕ)
one = record { queue = packet ∷ []; max_size = 5; size = 1; is_terminate = false }

abbrev waiting : HandleThread ℕ
waiting = record (new_handle_thread 3) { handlelist = one }

-- A thread that was told to end handles nothing more.
stopped-handle_imp : handle_imp 5 2 one (terminate waiting) ≡ done ([], one, terminate waiting)
unfolding handle_imp terminate
stopped-handle_imp = refl

joined-get_status : get_status (join (run waiting)) ≡ record {
  status = HandleStatus.stoping;
  handle_times = 0;
  handle_queue_capacity = 5;
  handle_queue_size = 1;
}
unfolding get_status join run new_handle_thread
joined-get_status = refl
