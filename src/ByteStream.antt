-- ===== src/ByteStream.antt =====
-- libsponge/byte_stream.hh and byte_stream.cc: the flow-controlled stream of bytes.
-- A byte is a number, a `std::string` a list of bytes, and `size_t` sums and differences wrap.
pub mod Fifo
pub mod Text
use cs144_intro2network.Prelude.{
  ℕ, ◌-◌, min, Bool, true, false, ◌&&◌, List, [], ◌++◌, length, take, drop, add64, sub64, ◌==◌,
}

pub record ByteStream : Type 0 where
  pub capacity : ℕ
  pub written : ℕ
  pub popped : ℕ
  pub buffer : List ℕ
  pub input_end : Bool
  pub failed : Bool

-- The constructor.
abbrev pub init : ℕ → ByteStream
init capacity = record {
  capacity = capacity;
  written = 0;
  popped = 0;
  buffer = [];
  input_end = false;
  failed = false;
}

abbrev pub buffer_size : ByteStream → ℕ
buffer_size s = length s.buffer

abbrev pub buffer_empty : ByteStream → Bool
buffer_empty s = length s.buffer == 0

abbrev pub input_ended : ByteStream → Bool
input_ended s = s.input_end

abbrev pub error : ByteStream → Bool
error s = s.failed

abbrev pub eof : ByteStream → Bool
eof s = input_ended s && buffer_empty s

abbrev pub bytes_written : ByteStream → ℕ
bytes_written s = s.written

abbrev pub bytes_read : ByteStream → ℕ
bytes_read s = s.popped

unfoldable pub remaining_capacity : ByteStream → ℕ
remaining_capacity s = sub64 s.capacity (length s.buffer)

-- Returns how many bytes were accepted beside the stream.
unfoldable pub write : ByteStream → List ℕ → ByteStream × ℕ
write s bytes =
    let size_written = min (remaining_capacity s) (length bytes) in
    (
      record s {
        buffer = s.buffer ++ take size_written bytes;
        written = add64 s.written size_written;
      },
      size_written,
    )

unfoldable pub peek_output : ByteStream → ℕ → List ℕ
peek_output s len = take (min len (length s.buffer)) s.buffer

unfoldable pub pop_output : ByteStream → ℕ → ByteStream
pop_output s len =
    let len_read = min len (length s.buffer) in
    record s {
      buffer = take (length s.buffer - len_read) (drop len_read s.buffer);
      popped = add64 s.popped len_read;
    }

-- `read` of the source: the bytes, and the stream after them.
unfoldable pub read : ByteStream → ℕ → List ℕ × ByteStream
unfolding peek_output pop_output
read s len = (peek_output s len, pop_output s len)

unfoldable pub end_input : ByteStream → ByteStream
end_input s = record s { input_end = true }

unfoldable pub set_error : ByteStream → ByteStream
set_error s = record s { failed = true }
