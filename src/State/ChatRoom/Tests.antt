-- ===== src/State/ChatRoom/Tests.antt =====
-- Chat rooms at concrete inputs.
use go_icq.Prelude.{◌≡◌, refl, codes}
use go_icq.State.Text.{decimal, decimal_from}
use go_icq.State.ChatRoom.{ChatRoom, private_exchange, new_chat_room, cookie, query_escape, url}

abbrev lobby : ChatRoom
lobby = new_chat_room (codes "the lobby & co") (codes "bob") private_exchange

lobby-cookie : cookie lobby ≡ codes "4-0-the lobby & co"
unfolding cookie decimal decimal_from
lobby-cookie = refl

lobby-url : (url lobby).1 ≡ codes "gochat?roomname=the+lobby+%26+co&exchange=4"
unfolding url query_escape decimal decimal_from
lobby-url = refl
