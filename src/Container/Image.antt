-- ===== src/Container/Image.antt =====
-- `parse_image` of kolla_container_worker.py.
pub mod Tagged
use irnmn.Prelude.{ℕ, String, Bool, true, false, ◌&◌, Option, none, some, if◌then◌else◌}
use irnmn.Text.Split.{split_first, split_last, has_char}

abbrev pub part_after : String → Option (String × String) → String
part_after full none = full
part_after full (some (registry, image)) = image

-- The image without its registry.
unfoldable pub image_part : String → String
unfolding split_first
image_part full_image = part_after full_image (split_first 47 full_image)

-- The last case is not met, since the image's colon is one of the whole text.
abbrev pub repository_tag : String → Option (String × String) → String × String
repository_tag full (some (repository, tag)) = (repository, tag)
repository_tag full none = (full, "")

unfoldable pub parse_image : String → String × String
unfolding image_part split_last has_char
parse_image full_image =
    if has_char 58 (image_part full_image)
    then repository_tag full_image (split_last 58 full_image)
    else (full_image, "latest")

-- `":".join(self.parse_image())`
unfoldable pub find_image : String → String
unfolding parse_image
find_image full_image = (parse_image full_image).0 & ":" & (parse_image full_image).1
