-- ===== src/Media/Transform.antt =====
-- Transforms and their filter graph, crates/tryx-media/src/transform.rs. The hash of the canonical
-- text, made by the sha2 crate, is left out.
mod Canonical
mod Modes
mod Valid
mod Tests
use tryxctl.Prelude.{
  ℕ, Bool, true, false, ◌&&◌, ◌||◌, not, Option, none, some, [], ◌∷◌, ◌++◌, ltb, leb, ◌==◌,
  if◌then◌else◌, Result, ok, err, Bytes, equal,
}
use tryxctl.Prelude.Text.{codes, format, to_decimal, to_padded_hex, to_lowercase}

pub data Mode : Type 0 where
  fit fill crop stretch : Mode

pub parse : Bytes → Option Mode
parse text =
    let lowered = to_lowercase text in
    if equal lowered (codes "fit")
    then some fit
    else if equal lowered (codes "fill")
    then some fill
    else if equal lowered (codes "crop")
    then some crop
    else if equal lowered (codes "stretch")
    then some stretch
    else none

-- `Display` of a mode.
pub mode_name : Mode → Bytes
mode_name fit = codes "Fit"
mode_name fill = codes "Fill"
mode_name crop = codes "Crop"
mode_name stretch = codes "Stretch"

pub record Transform : Type 0 where
  pub mode : Mode
  pub rotation_quarter_turns : ℕ
  pub zoom_permille : ℕ
  pub focus_x : ℕ
  pub focus_y : ℕ
  pub background_rgb : ℕ

abbrev pub default : Transform
default = record {
  mode = fit;
  rotation_quarter_turns = 0;
  zoom_permille = 1000;
  focus_x = 5000;
  focus_y = 5000;
  background_rgb = 0;
}

pub data InvalidTransform : Type 0 where
  rotation zoom focus background zoom_outside_crop background_outside_fit : InvalidTransform

is_crop : Mode → Bool
is_crop crop = true
is_crop _ = false

is_fit : Mode → Bool
is_fit fit = true
is_fit _ = false

is_neutral_viewport : Transform → Bool
is_neutral_viewport t = t.zoom_permille == 1000 && t.focus_x == 5000 && t.focus_y == 5000

pub validate : Transform → Result InvalidTransform (Unit {0})
unfolding is_crop is_fit is_neutral_viewport
validate t =
    if ltb 3 t.rotation_quarter_turns
    then err rotation
    else if not (leb 1000 t.zoom_permille && leb t.zoom_permille 4000)
    then err zoom
    else if ltb 10000 t.focus_x || ltb 10000 t.focus_y
    then err focus
    else if ltb 0x00FF_FFFF t.background_rgb
    then err background
    else if not (is_crop t.mode) && not (is_neutral_viewport t)
    then err zoom_outside_crop
    else if not (is_fit t.mode) && not (t.background_rgb == 0)
    then err background_outside_fit
    else ok tt

pub is_default : Transform → Bool
unfolding is_neutral_viewport is_fit
is_default t =
    is_fit t.mode && t.rotation_quarter_turns == 0 && is_neutral_viewport t && t.background_rgb == 0

pub canonical : Transform → Bytes
unfolding mode_name
canonical t = to_lowercase (
    format (
      codes "v=1;mode="
      ∷ mode_name t.mode
      ∷ codes ";rotation="
      ∷ to_decimal t.rotation_quarter_turns
      ∷ codes ";zoom="
      ∷ to_decimal t.zoom_permille
      ∷ codes ";focus-x="
      ∷ to_decimal t.focus_x
      ∷ codes ";focus-y="
      ∷ to_decimal t.focus_y
      ∷ codes ";background="
      ∷ to_padded_hex 6 t.background_rgb
      ∷ []))

cover_viewport : ℕ → ℕ → ℕ → ℕ → ℕ → Bytes
cover_viewport width height permille focus_x focus_y =
    let w = to_decimal width in
    let h = to_decimal height in
    let z = to_decimal permille in
    format (
      codes "scale="
      ∷ w
      ∷ codes ":"
      ∷ h
      ∷ codes ":force_original_aspect_ratio=increase:force_divisible_by=2,scale='trunc(iw*"
      ∷ z
      ∷ codes "/1000/2)*2':'trunc(ih*"
      ∷ z
      ∷ codes "/1000/2)*2',crop="
      ∷ w
      ∷ codes ":"
      ∷ h
      ∷ codes ":'trunc((iw-"
      ∷ w
      ∷ codes ")*"
      ∷ to_decimal focus_x
      ∷ codes "/10000/2)*2':'trunc((ih-"
      ∷ h
      ∷ codes ")*"
      ∷ to_decimal focus_y
      ∷ codes "/10000/2)*2',"
      ∷ [])

rotation_filter : ℕ → Bytes
rotation_filter turns =
    if turns == 1
    then codes "transpose=clock,"
    else if turns == 2
    then codes "hflip,vflip,"
    else if turns == 3
    then codes "transpose=cclock,"
    else []

mode_filter : Mode → Transform → ℕ → ℕ → Bytes
unfolding cover_viewport
mode_filter fit t width height =
    let w = to_decimal width in
    let h = to_decimal height in
    format (
      codes "scale="
      ∷ w
      ∷ codes ":"
      ∷ h
      ∷ codes ":force_original_aspect_ratio=decrease,pad="
      ∷ w
      ∷ codes ":"
      ∷ h
      ∷ codes ":(ow-iw)/2:(oh-ih)/2:color=0x"
      ∷ to_padded_hex 6 t.background_rgb
      ∷ codes ","
      ∷ [])
mode_filter fill t width height = cover_viewport width height 1000 5000 5000
mode_filter stretch t width height =
    format (codes "scale=" ∷ to_decimal width ∷ codes ":" ∷ to_decimal height ∷ codes "," ∷ [])
mode_filter crop t width height = cover_viewport width height t.zoom_permille t.focus_x t.focus_y

geometry_filter : Transform → ℕ → ℕ → Bytes
unfolding rotation_filter mode_filter
geometry_filter t width height = format (
    rotation_filter t.rotation_quarter_turns
    ∷ codes "scale='if(lte(sar,0),iw,max(1,round(iw*sar)))':ih,setsar=1,"
    ∷ mode_filter t.mode t width height
    ∷ [])

pub video_filter : Transform → ℕ → ℕ → ℕ → Bytes
unfolding geometry_filter
video_filter t width height fps =
    format
      (geometry_filter t width height ∷ codes "setsar=1,format=yuv420p,fps=" ∷ to_decimal fps ∷ [])

pub image_filter : Transform → ℕ → ℕ → Bytes
unfolding geometry_filter
image_filter t width height =
    format (geometry_filter t width height ∷ codes "setsar=1,format=rgb24" ∷ [])
