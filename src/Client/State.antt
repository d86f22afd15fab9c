-- ===== src/Client/State.antt =====
-- src/client/main.cc: what the client keeps, what it prints, and the socket with its buffer.
use chat_server_c.Base.{ℕ, zero, suc, List, [], ◌∷◌, ◌++◌}
use chat_server_c.Base.Int.{ℤ}
use chat_server_c.Base.Bytes.{Bytes, c_str}
use chat_server_c.Base.Outcome.{Action, modify}
use chat_server_c.Protocol.{User, Group}

-- The lines on the screen, each with the values in it. The menus, the prompts, the lines of dashes
-- and of pluses, and empty lines are left out.
pub data Line : Type 0 where
  -- `cerr << "send login msg error: " << request`, and the other calls'
  send_failed recv_failed : Line
  -- the buffer of a login
  answer : Bytes → Line
  -- `cerr << responsejs["errmsg"]`
  login_failed : Bytes → Line
  -- name and id
  registered : Bytes → Bytes → Line
  register_failed : Line
  -- the three kinds of line of `showCurrentUserData`, and a member of a group
  current_user : ℤ → Bytes → Line
  friend_line : ℤ → Bytes → Bytes → Line
  group_line : ℤ → Bytes → Bytes → Line
  member_line : ℤ → Bytes → Bytes → Bytes → Line
  -- time, id, name and message
  said : Bytes → Bytes → Bytes → Bytes → Line
  -- group id, time, id and message
  said_in_group : Bytes → Bytes → Bytes → Bytes → Line
  -- `cout << js["offlineresponse"]`
  peer_offline : Bytes → Line
  -- `cout << js["msg"]`, where the server did not let the user out
  loginout_failed : Bytes → Line

-- `g_currentUser`, `g_currentUserFriendList`, `g_currentUserGroupList`; what was printed, and what
-- was handed to `send`, oldest first.
pub record Client : Type 0 where
  pub me : User
  pub friends : List User
  pub groups : List Group
  pub screen : List Line
  pub requests : List Bytes

abbrev pub print : Line → Action Client (Unit {0})
print l = modify (λ c. record c { screen = c.screen ++ l ∷ [] })

-- The bytes of `send(clientfd, s.c_str(), strlen(s.c_str()) + 1, 0)`
abbrev pub wire : Bytes → Bytes
wire s = c_str s ++ 0 ∷ []

abbrev pub request_sent : Bytes → Action Client (Unit {0})
request_sent s = modify (λ c. record c { requests = c.requests ++ wire s ∷ [] })

-- The first `n` bytes, or all and zeros behind them.
abbrev pub fill : ℕ → Bytes → Bytes
fill zero s = []
fill (suc n) [] = 0 ∷ fill n []
fill (suc n) (b ∷ s) = b ∷ fill n s

-- `char buffer[1024] = {0}; recv(clientfd, buffer, 1024, 0);` where `s` is there to be received
unfoldable pub buffer : Bytes → Bytes
buffer s = fill 1024 s
