-- ===== src/Examples/Contents.antt =====
-- The packed files in two orders, against one content index.

use capsules_protocol.Manifest.{
  Files, file, build_content_index, hashed_files, sort_entries, insert_entry, sha256_hex,
}
use capsules_protocol.Verifier.{same}
use capsules_protocol.Verifier.Index.{
  content_problems, files_problems, stored_hash, missing_problems, packaged, index_files, has_null,
  paths_print, truthy,
}
use capsules_protocol.Verifier.Contents.{FilesCollide, content_binds}
use capsules_protocol.Examples.Envelope.{envelope_code}
use capsules_protocol.Examples.Toy.{toy, toy-IsDigest}
use capsules_protocol.Examples.Verifier.{sealed_manifest, sealed_envelope, packed}
use capsules_protocol.Prelude.{codes, str_compare, ◌≡◌, refl, ◌⊎◌, some, [], ◌∷◌}

abbrev reordered : Files
reordered = (codes "notes.md", b'h' ∷ b'i' ∷ []) ∷ (codes "chain/events.jsonl", []) ∷ []

fits : content_problems toy sealed_manifest sealed_envelope packed ≡ some []
unfolding envelope_code content_problems build_content_index hashed_files sort_entries insert_entry
    sha256_hex index_files has_null paths_print files_problems stored_hash missing_problems packaged
    truthy same str_compare file
fits = refl

reordered_fits : content_problems toy sealed_manifest sealed_envelope reordered ≡ some []
unfolding envelope_code content_problems build_content_index hashed_files sort_entries insert_entry
    sha256_hex index_files has_null paths_print files_problems stored_hash missing_problems packaged
    truthy same str_compare file
reordered_fits = refl

content_binds_example :
    (file packed (codes "notes.md") ≡ file reordered (codes "notes.md"))
    ⊎ FilesCollide toy packed reordered (codes "notes.md")
unfolding envelope_code same
content_binds_example =
    content_binds toy sealed_manifest sealed_envelope packed reordered (codes "notes.md")
      toy-IsDigest fits reordered_fits refl
