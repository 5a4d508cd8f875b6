-- ===== src/Chat/Reader.antt =====
-- A reader stays in its buffers, and passes on each read.
use sherry.Base.{
  ℕ, ◌^◌, ◌≤◌, ◌<◌, ◌≡◌, refl, some, List, [], ◌∷◌, ◌++◌, length, length-append, arith,
}
use sherry.Chat.{MsgType}
use sherry.Chat.Text.{codes, c_string, sprintf_fits, length-c_string-le, string_payload}
use sherry.Chat.Actors.{
  Event, send_msg, send_fd, disconnected, serverid, send_string_msg, reader_text, read_loop,
  client_reader, username_size, readbuf_size, msg_size,
}

-- `sherryRead` returns as many bytes as it is asked for, or fewer.
abbrev pub ReadsFit : List (List ℕ) → Type 0
ReadsFit [] = Unit {0}
ReadsFit (bytes ∷ reads) = (length bytes < readbuf_size) × ReadsFit reads

-- The messages of a reader: one for each read up to the first that is empty, and then its end.
unfoldable pub messages : ℕ → List ℕ → List (List ℕ) → List Event
messages fd username [] = []
messages fd username ([] ∷ reads) = disconnected fd ∷ send_fd serverid MsgType.msg_exit fd ∷ []
messages fd username ((b ∷ bytes) ∷ reads) =
    send_msg serverid MsgType.msg_read
      (c_string (username ++ codes "> " ++ c_string (b ∷ bytes)) ++ 0 ∷ [])
    ∷ messages fd username reads

reader_text_fits :
    (username bytes : List ℕ)
    → length username < 18
    → length bytes < readbuf_size
    → reader_text username bytes ≡ some (username ++ codes "> " ++ c_string bytes)
unfolding reader_text
reader_text_fits username bytes u h =
    sprintf_fits msg_size (username ++ codes "> " ++ c_string bytes) (
      omega (
        arith,
        length-append (username ++ codes "> ") (c_string bytes),
        length-append username (codes "> "),
        length-c_string-le bytes,
      ))

read_loop-messages :
    (fd : ℕ) (username : List ℕ) (reads : List (List ℕ))
    → length username < 18
    → ReadsFit reads
    → read_loop fd username reads ≡ some (messages fd username reads)
unfolding read_loop messages send_string_msg string_payload
read_loop-messages fd username [] u h = refl
read_loop-messages fd username ([] ∷ reads) u h = refl
read_loop-messages fd username ((b ∷ bytes) ∷ reads) u h =
    rw (reader_text_fits username (b ∷ bytes) u h.0, read_loop-messages fd username reads u h.1)

-- For a file descriptor below 2^31, a `%d` of 10 characters at most for such numbers and reads that
-- fit the read buffer, no `sprintf` of `clientReader` overruns its buffer; the reader sends the
-- server one message for each read, the name, `> ` and the read up to its first NUL, and at the end
-- of the stream the message that the client has gone.
pub client_reader-messages :
    (show_int : ℕ → List ℕ) (fd : ℕ) (reads : List (List ℕ))
    → ((n : ℕ) → n < 2 ^ 31 → length (show_int n) ≤ 10)
    → fd < 2 ^ 31
    → ReadsFit reads
    → client_reader show_int fd reads ≡ some (messages fd (codes "user:" ++ show_int fd) reads)
unfolding client_reader
client_reader-messages show_int fd reads short h fit =
    let short_name : length (codes "user:" ++ show_int fd) < 18 =
      omega (arith, length-append (codes "user:") (show_int fd), short fd h) in
    rw (sprintf_fits username_size (codes "user:" ++ show_int fd) (omega (arith, short_name)))
      (read_loop-messages fd (codes "user:" ++ show_int fd) reads short_name fit)
