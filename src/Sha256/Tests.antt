-- ===== src/Sha256/Tests.antt =====
-- SHA-256 of known messages.
use beam_drop.Prelude.{◌≡◌, refl, ◌++◌, arith}
use beam_drop.Errors.{ok}
use beam_drop.Text.{codes}
use beam_drop.Sha256.{
  rotr, load_be32, loaded, next_word, extended, round, rounds, process_block, whole_blocks, fill,
  absorb_rest, absorb, update, hex_word, to_hex, length_bytes, final_size, final_blocks, last_words,
  final_hex, sha256_hex, sha256_file, initial_words,
}
use beam_drop.Sha256.Streaming.{sha256_file-sha256_hex}
use beam_drop.Sha256.Blocks.{blocks}
use beam_drop.Sha256.Padding.{padding, sha256_hex-padding}

abc_hash :
    sha256_hex (codes "abc")
    ≡ ok (codes "ba7816bf8f01cfea414140de5dae2223b00361a396177a9cb410ff61f20015ad")
unfolding rotr load_be32 loaded next_word extended round rounds process_block whole_blocks fill
    absorb_rest absorb update hex_word to_hex length_bytes final_size final_blocks last_words
    final_hex sha256_hex
abc_hash = refl

sha256_file-sha256_hex_example : sha256_file 2 (codes "abc") ≡ sha256_hex (codes "abc")
sha256_file-sha256_hex_example = sha256_file-sha256_hex 2 (codes "abc") (ground arith)

sha256_hex-padding_example :
    sha256_hex (codes "abc") ≡ ok (to_hex (blocks initial_words (codes "abc" ++ padding 3)).0)
sha256_hex-padding_example = sha256_hex-padding (codes "abc")
