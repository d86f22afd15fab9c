-- ===== src/Redis/Sample.antt =====
-- A concrete `Hiredis` for the tests: one connection, over which at most four bytes go at a time, to
-- a server that has it as a subscriber of every channel.
use chat_server_c.Redis.{written_part, written_all, write_failed, Write, Hiredis, Reply, triple}
use chat_server_c.Base.Bytes.{Bytes, bytes_eq, codes}
use chat_server_c.Base.{
  ℕ, zero, suc, arith, ◌+◌, ◌<◌, ◌≢◌, ◌≡◌, ◌++◌, if◌then◌else◌, length, List, refl, [], ◌∷◌, some,
  true, false, append-nil, sym, ap,
}

pub record Cable : Type 0 where
  pub went : Bytes
  pub waits : Bytes
  pub signals : ℕ
  pub replies : List Reply

abbrev words_text : List Bytes → Bytes
words_text [] = 10 ∷ []
words_text (w ∷ ws) = w ++ 32 ∷ words_text ws

pub words_text_bytes : (words : List Bytes) → words_text words ≢ []
words_text_bytes [] e = cc e
words_text_bytes ([] ∷ ws) e = cc e
words_text_bytes ((c ∷ w) ∷ ws) e = cc e

-- A signal interrupts a write as long as there are any.
abbrev write_line : ℕ → Bytes → Cable → Write × Cable
write_line (suc n) (a ∷ s) l = (written_part, record l { waits = a ∷ s; signals = n })
write_line zero (a ∷ b ∷ c ∷ d ∷ e ∷ s) l =
    (written_part, record l { went = l.went ++ a ∷ b ∷ c ∷ d ∷ []; waits = e ∷ s; signals = zero })
write_line n s l = (written_all, record l { went = l.went ++ s; waits = []; signals = n })

pub write_line_part :
    (n : ℕ) (s : Bytes) (l : Cable)
    → (write_line n s l).0 ≡ written_part
    → (t : Bytes) × (s ≡ t ++ (write_line n s l).1.waits)
      × ((write_line n s l).1.went ≡ l.went ++ t)
      × ((write_line n s l).1.waits ≢ [])
      × (length (write_line n s l).1.waits + (write_line n s l).1.signals < length s + n)
write_line_part (suc n) (a ∷ s) l h = ([], refl, sym (append-nil l.went), λ e. cc e, omega arith)
write_line_part (suc n) [] l h = cc
write_line_part zero (a ∷ b ∷ c ∷ d ∷ e ∷ s) l h =
    (a ∷ b ∷ c ∷ d ∷ [], refl, refl, λ k. cc k, omega arith)
write_line_part zero [] l h = cc
write_line_part zero (a ∷ []) l h = cc
write_line_part zero (a ∷ b ∷ []) l h = cc
write_line_part zero (a ∷ b ∷ c ∷ []) l h = cc
write_line_part zero (a ∷ b ∷ c ∷ d ∷ []) l h = cc

pub write_line_all :
    (n : ℕ) (s : Bytes) (l : Cable)
    → (write_line n s l).0 ≡ written_all
    → ((write_line n s l).1.waits ≡ []) × ((write_line n s l).1.went ≡ l.went ++ s)
write_line_all (suc n) (a ∷ s) l h = cc
write_line_all (suc n) [] l h = (refl, refl)
write_line_all zero (a ∷ b ∷ c ∷ d ∷ e ∷ s) l h = cc
write_line_all zero [] l h = (refl, refl)
write_line_all zero (a ∷ []) l h = (refl, refl)
write_line_all zero (a ∷ b ∷ []) l h = (refl, refl)
write_line_all zero (a ∷ b ∷ c ∷ []) l h = (refl, refl)
write_line_all zero (a ∷ b ∷ c ∷ d ∷ []) l h = (refl, refl)

pub write_line_fails :
    (n : ℕ) (s : Bytes) (l : Cable)
    → (write_line n s l).0 ≡ write_failed
    → ((write_line n s l).1.waits ≡ s) × ((write_line n s l).1.went ≡ l.went)
write_line_fails (suc n) (a ∷ s) l h = cc
write_line_fails (suc n) [] l h = cc
write_line_fails zero (a ∷ b ∷ c ∷ d ∷ e ∷ s) l h = cc
write_line_fails zero [] l h = cc
write_line_fails zero (a ∷ []) l h = cc
write_line_fails zero (a ∷ b ∷ []) l h = cc
write_line_fails zero (a ∷ b ∷ c ∷ []) l h = cc
write_line_fails zero (a ∷ b ∷ c ∷ d ∷ []) l h = cc

pub never_refused :
    (l : Cable) (words : List Bytes)
    → false ≡ true
    → (l.went ≡ l.went) × (l.waits ++ words_text words ≡ l.waits)
never_refused l words h = cc

-- What the server sends back for a command.
abbrev answers : List Bytes → List Reply
answers (command ∷ channel ∷ message ∷ []) =
    if bytes_eq command (codes "PUBLISH")
    then triple (some (codes "message")) (some channel) (some message) ∷ []
    else []
answers words = []

pub publish_answers :
    (channel message : Bytes)
    → answers (codes "PUBLISH" ∷ channel ∷ message ∷ [])
      ≡ triple (some (codes "message")) (some channel) (some message) ∷ []
unfolding bytes_eq
publish_answers channel message = refl

instance abbrev pub sample_hiredis : Hiredis
sample_hiredis = record {
  Context = Unit {0};
  State = Cable;
  wire = λ c l. l.went;
  unsent = λ c l. l.waits;
  encoded = words_text;
  interrupts = λ l. l.signals;
  inbox = λ c l. l.replies;
  IsUp = λ c l. Unit {0};
  Listens = λ c channel l. Unit {0};
  redis_connect = λ l. (some tt, l);
  redis_command = λ c words l.
      (true, record l { went = l.went ++ words_text words; replies = l.replies ++ answers words });
  redis_append_command = λ c words l. (false, record l { waits = l.waits ++ words_text words });
  redis_buffer_write = λ c l. write_line l.signals l.waits l;
  append_adds = λ c words l h. (refl, refl);
  append_fails = λ c words l h. never_refused l words h;
  encoded_bytes = words_text_bytes;
  writes_part = λ c l h. write_line_part l.signals l.waits l h;
  writes_all = λ c l h. write_line_all l.signals l.waits l h;
  write_fails = λ c l h. write_line_fails l.signals l.waits l h;
  command_answered = λ c words l up. refl;
  publish_arrives = λ c d channel message l up listens.
      ap (λ rs. l.replies ++ rs) (publish_answers channel message);
}
