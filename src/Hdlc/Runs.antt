-- ===== src/Hdlc/Runs.antt =====
-- Runs of src/hdlc.rs on the inputs of its tests, and the theorems at concrete inputs.
use axsh.Prelude.{true, false, if◌then◌else◌, leb, length, length-append, some, ◌++◌, ◌≤◌, arith}
use axsh.Prelude.Samples.{all_bytes-All}
use axsh.Hdlc.{flag, max_frame_size, frame_too_large, fcs_mismatch}
use axsh.Hdlc.Stuffing.{stuff, length-stuff}
use axsh.Hdlc.RoundTrip.{fcs_bytes, length-encode, decode-encode}
use axsh.Hdlc.Sound.{decode_sound}
use axsh.Hdlc.Detection.{decode-one_byte_corrupted}
use axsh.Hdlc.Reader.{
  byte, would_block, incoming, read_frame, read_loop, push_frame_byte, read_frame_async, drive,
  require_first,
}
use axsh.Hdlc.Reader.Resume.{drive-read_loop, read_frame_async-read_frame}
use axsh.Hdlc.Reader.Frames.{IsFrame, read_frame-encode, read_frame-IsFrame}
use axsh.Prelude.{Bytes, ◌≡◌, refl, ok, err, [], ◌∷◌}
use axsh.Base64.{codes}
use axsh.Hdlc.{
  encode, decode, unescape, finish, escape_into, frame_fcs, fold_fcs, update_fcs, shifts, shift_fcs,
  dangling_escape, no_opening_flag,
}

decode-encode_escapes :
    decode (encode (0x7e ∷ 0x7d ∷ 0x00 ∷ 0x7e ∷ [])) ≡ ok (0x7e ∷ 0x7d ∷ 0x00 ∷ 0x7e ∷ [])
unfolding encode decode unescape finish escape_into frame_fcs fold_fcs update_fcs shifts shift_fcs
decode-encode_escapes = refl

-- The check value of CRC-16/X-25.
frame_fcs_check : frame_fcs (codes "123456789") ≡ 0x906e
unfolding frame_fcs fold_fcs update_fcs shifts shift_fcs
frame_fcs_check = refl

decode_rejects :
    (decode (0x7e ∷ 0x00 ∷ 0x7d ∷ 0x7e ∷ []) ≡ err dangling_escape)
    × (decode (1 ∷ 2 ∷ 3 ∷ 4 ∷ []) ≡ err no_opening_flag)
unfolding decode unescape finish
decode_rejects = (refl, refl)

-- The frame of the payload `1, 0x7e`.
abbrev sample : Bytes
sample = 0x7e ∷ 1 ∷ 0x7d ∷ 0x5e ∷ 0x66 ∷ 0x8c ∷ 0x7e ∷ []

decode-sample : decode sample ≡ ok (1 ∷ 0x7e ∷ [])
unfolding decode unescape finish frame_fcs fold_fcs update_fcs shifts shift_fcs
decode-sample = refl

read_sample : read_frame (incoming (9 ∷ sample)) ≡ (ok (some sample), [])
unfolding read_frame read_loop push_frame_byte
read_sample = refl

decode-encode_example : decode (encode (1 ∷ 0x7e ∷ [])) ≡ (
    if leb (length (encode (1 ∷ 0x7e ∷ []))) max_frame_size
    then ok (1 ∷ 0x7e ∷ [])
    else err frame_too_large)
decode-encode_example = decode-encode (1 ∷ 0x7e ∷ [])

decode_sound_example :
    (body : Bytes) × (sample ≡ flag ∷ (body ++ flag ∷ []))
    × (length sample ≤ max_frame_size)
    × (unescape body false [] ≡ ok ((1 ∷ 0x7e ∷ []) ++ fcs_bytes (1 ∷ 0x7e ∷ []), false))
decode_sound_example = decode_sound sample (1 ∷ 0x7e ∷ []) (all_bytes-All sample refl) decode-sample

decode-one_byte_corrupted_example :
    decode (flag ∷ (stuff ((1 ∷ 3 ∷ 2 ∷ []) ++ fcs_bytes (1 ∷ 7 ∷ 2 ∷ [])) ++ flag ∷ []))
    ≡ err fcs_mismatch
decode-one_byte_corrupted_example =
    decode-one_byte_corrupted (1 ∷ []) (2 ∷ []) 7 3 (all_bytes-All (1 ∷ []) refl)
      (all_bytes-All (2 ∷ []) refl) (omega arith) (omega arith)
      (λ (e : 7 ≡ 3). absurd (omega arith))
      (omega (
        arith,
        length-stuff ((1 ∷ 3 ∷ 2 ∷ []) ++ fcs_bytes (1 ∷ 7 ∷ 2 ∷ [])),
        length-append (1 ∷ 3 ∷ 2 ∷ []) (fcs_bytes (1 ∷ 7 ∷ 2 ∷ [])),
      ))

read_frame_async-read_frame_example :
    read_frame_async (would_block ∷ incoming sample)
    ≡ some (require_first (read_frame (would_block ∷ incoming sample)))
read_frame_async-read_frame_example = read_frame_async-read_frame (would_block ∷ incoming sample)

drive-read_loop_example :
    drive 3 (record { frame = flag ∷ 1 ∷ []; in_frame = true }) (would_block ∷ byte flag ∷ [])
    ≡ some (read_loop (would_block ∷ byte flag ∷ []) (flag ∷ 1 ∷ []) true)
drive-read_loop_example =
    drive-read_loop 3 (record { frame = flag ∷ 1 ∷ []; in_frame = true })
      (would_block ∷ byte flag ∷ []) (omega arith)

read_frame-encode_example :
    read_frame (incoming ((9 ∷ []) ++ encode (1 ∷ 0x7e ∷ [])) ++ byte 5 ∷ [])
    ≡ (ok (some (encode (1 ∷ 0x7e ∷ []))), byte 5 ∷ [])
read_frame-encode_example =
    read_frame-encode (9 ∷ []) (1 ∷ 0x7e ∷ []) (byte 5 ∷ [])
      ((λ (e : 9 ≡ flag). absurd (omega arith)), tt) (omega (arith, length-encode (1 ∷ 0x7e ∷ [])))

read_frame-IsFrame_example : IsFrame sample
read_frame-IsFrame_example = read_frame-IsFrame (incoming (9 ∷ sample)) [] sample read_sample
