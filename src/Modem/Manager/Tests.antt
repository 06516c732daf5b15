-- ===== src/Modem/Manager/Tests.antt =====
-- Two starts and three requests for a sender.
use sms_server.Base.{◌≡◌, refl, List, [], ◌∷◌, ok}
use sms_server.Modem.Manager.{ManagerCall, start_call, get_sender_call, senders, new_manager}

abbrev calls : List ManagerCall
calls =
    start_call 4 (ok tt) (ok tt)
    ∷ get_sender_call
    ∷ get_sender_call
    ∷ start_call 5 (ok tt) (ok tt)
    ∷ get_sender_call
    ∷ []

handed_out : senders new_manager calls ≡ 4 ∷ 5 ∷ []
unfolding senders
handed_out = refl
