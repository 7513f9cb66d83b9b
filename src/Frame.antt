-- ===== src/Frame.antt =====
-- The management socket's framing (desktop/core/src/frame.rs). A writer is a parameter, as the
-- source takes any; a reader is the bytes that are to come, up to the end of the stream, as the
-- standard library reads a slice.
pub mod Trips
mod Tests
use fermix_linux.Base.{
  ℕ, ◌+◌, ◌*◌, ◌/◌, ◌%◌, ◌^◌, List, [], ◌∷◌, Option, none, some, ltb, if◌then◌else◌, length, take,
  drop, ◌⊎◌, inl, inr, ◌>>=◌,
}

abbrev pub max_frame_bytes : ℕ
max_frame_bytes = 4 * 1024 * 1024

pub data FrameError : Type 0 where
  too_large : ℕ → FrameError
  io : FrameError

-- `u32::to_be_bytes`
unfoldable pub be_bytes : ℕ → List ℕ
be_bytes n = (n / 2 ^ 24 % 256) ∷ (n / 2 ^ 16 % 256) ∷ (n / 2 ^ 8 % 256) ∷ (n % 256) ∷ []

-- `u32::from_be_bytes`
unfoldable pub from_be_bytes : List ℕ → ℕ
from_be_bytes (a ∷ b ∷ c ∷ d ∷ []) = a * 2 ^ 24 + b * 2 ^ 16 + c * 2 ^ 8 + d
from_be_bytes _ = 0

abbrev pub or_io {ℓ} : {A : Type ℓ} → Option A → FrameError ⊎ A
or_io none = inl FrameError.io
or_io (some a) = inr a

-- The longest frame's length fits in 32 bits.
module _ {ℓ} {W : Type ℓ} (write_all : W → List ℕ → Option W) (flush : W → Option W) where
  unfoldable pub write_frame : W → List ℕ → FrameError ⊎ W
  write_frame w body =
      if ltb max_frame_bytes (length body)
      then inl (FrameError.too_large (length body))
      else or_io (write_all w (be_bytes (length body)) >>= λ v. write_all v body >>= flush)

-- `read_exact`: as many bytes, and what is left, where there are as many.
unfoldable pub read_exact : ℕ → List ℕ → Option (List ℕ × List ℕ)
read_exact n bytes = if ltb (length bytes) n then none else some (take n bytes, drop n bytes)

-- `read_frame`, past the header: the body, and what is left.
unfoldable pub read_body : ℕ → List ℕ → FrameError ⊎ (List ℕ × List ℕ)
unfolding read_exact
read_body len bytes =
    if ltb max_frame_bytes len then inl (FrameError.too_large len) else or_io (read_exact len bytes)

unfoldable pub read_header : Option (List ℕ × List ℕ) → FrameError ⊎ (List ℕ × List ℕ)
unfolding from_be_bytes read_body
read_header none = inl FrameError.io
read_header (some (header, bytes)) = read_body (from_be_bytes header) bytes

unfoldable pub read_frame : List ℕ → FrameError ⊎ (List ℕ × List ℕ)
unfolding read_header read_exact
read_frame bytes = read_header (read_exact 4 bytes)
