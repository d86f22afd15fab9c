-- ===== src/Examples/Channels.antt =====
-- The channels of Redis.
use chat_server_c.Redis.Sample.{Cable, sample_hiredis}
use chat_server_c.Redis.Sending.{Sent, subscribe-Sent}
use chat_server_c.Base.Decimal.{show_int}
use chat_server_c.Base.Bytes.{codes}
use chat_server_c.Base.Int.{pos}
use chat_server_c.Redis.{unsubscribe, subscribe}
use chat_server_c.Base.{◌≡◌, Bool, [], ◌∷◌, some}

abbrev idle_line : Cable
idle_line = record { went = []; waits = 7 ∷ []; signals = 2; replies = [] }

subscribe-Sent_example :
    ((b : Bool) × (st' : Cable) × (subscribe tt (pos 3) idle_line ≡ some (b, st'))
      × Sent tt (codes "SUBSCRIBE" ∷ show_int (pos 3) ∷ []) idle_line b st')
    × ((b : Bool) × (st' : Cable) × (unsubscribe tt (pos 3) idle_line ≡ some (b, st'))
        × Sent tt (codes "UNSUBSCRIBE" ∷ show_int (pos 3) ∷ []) idle_line b st')
subscribe-Sent_example = subscribe-Sent tt (pos 3) idle_line
