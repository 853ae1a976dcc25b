-- ===== src/Deployment.antt =====
-- config/deployment.py: the profile of a deployment, from environment variables. `ValueError` is
-- `none`. What Python's built-in functions on texts do is a parameter.
use smart_traffic_management.Common.{
  Bool, Option, String, false, if◌then◌else◌, leb, none, not, or_default, some, true, ℕ, ◌&&◌,
}
use smart_traffic_management.Common.Dict.{Dict, get}
use smart_traffic_management.Common.Equality.{beq, nat_eq, string_eq}
use smart_traffic_management.Common.Float.{Float, negsuc, pos, ℤ}
use smart_traffic_management.Common.Text.{codes, occurs}
use smart_traffic_management.Hardware.{simulation}
use smart_traffic_management.Signal.Types.{lane_id_eq_inst}
pub mod Bounds

-- `s.strip()`, `s.lower()`; `int(s)` and `float(s)`, which have no value where they raise. A text of
-- a float that is not finite has none either, since every bound refuses it.
pub record Builtins (F : Type 0) : Type 0 where
  pub strip : String → String
  pub lower : String → String
  pub int_of : String → Option ℤ
  pub float_of : String → Option F

pub data ProfileName : Type 0 where
  laptop raspberry_pi : ProfileName

pub data ValidationStatus : Type 0 where
  measured_local_software proposed_unvalidated : ValidationStatus

pub data HardwareMode : Type 0 where
  simulated esp32 : HardwareMode

-- `profile.hardware_mode == "simulation"`
abbrev pub is_simulated : HardwareMode → Bool
is_simulated simulated = true
is_simulated esp32 = false

pub record DeploymentProfile (F : Type 0) : Type 0 where
  pub name : ProfileName
  pub validation_status : ValidationStatus
  pub hardware_mode : HardwareMode
  pub serial_port : Option String
  pub serial_baudrate : ℕ
  pub capture_fps : F
  pub webrtc_sample_fps : F
  pub detector_fps : F
  pub input_size : ℕ
  pub batch_size : ℕ
  pub cpu_threads : ℕ
  pub preview_fps : F

-- An entry of `_PROFILE_DEFAULTS`; rates in hundredths.
pub record ProfileDefaults : Type 0 where
  pub name : ProfileName
  pub validation_status : ValidationStatus
  pub capture_fps : ℕ
  pub webrtc_sample_fps : ℕ
  pub detector_fps : ℕ
  pub input_size : ℕ
  pub batch_size : ℕ
  pub cpu_threads : ℕ
  pub preview_fps : ℕ

unfoldable pub defaults_of : ProfileName → ProfileDefaults
defaults_of laptop = record {
  name = laptop;
  validation_status = measured_local_software;
  capture_fps = 400;
  webrtc_sample_fps = 400;
  detector_fps = 200;
  input_size = 576;
  batch_size = 4;
  cpu_threads = 4;
  preview_fps = 400;
}
defaults_of raspberry_pi = record {
  name = raspberry_pi;
  validation_status = proposed_unvalidated;
  capture_fps = 200;
  webrtc_sample_fps = 200;
  detector_fps = 100;
  input_size = 512;
  batch_size = 1;
  cpu_threads = 4;
  preview_fps = 200;
}

infixl 5 ◌>>=◌
abbrev pub ◌>>=◌ {ℓ κ} : {A : Type ℓ} {B : Type κ} → Option A → (A → Option B) → Option B
none >>= f = none
some a >>= f = f a

unfoldable pub profile_key : String → Option ProfileName
profile_key text =
    if beq text "laptop"
    then some laptop
    else if beq text "raspberry_pi"
    then some raspberry_pi
    else none

unfoldable pub hardware_key : String → Option HardwareMode
hardware_key text =
    if beq text "simulation" then some simulated else if beq text "esp32" then some esp32 else none

-- `s or None`
abbrev pub non_empty : String → Option String
non_empty s = if beq s "" then none else some s

-- A port is required for the hardware.
abbrev pub required_port : HardwareMode → Option String → Option (Option String)
required_port esp32 none = none
required_port esp32 (some port) = some (some port)
required_port simulated port = some port

abbrev pub within : ℕ → ℕ → ℤ → Option ℕ
within minimum maximum (pos n) = if leb minimum n && leb n maximum then some n else none
within minimum maximum (negsuc n) = none

abbrev pub or_parse {ℓ} : {A : Type ℓ} → (String → Option A) → A → Option String → Option A
or_parse parse fallback none = some fallback
or_parse parse fallback (some text) = parse text

module _ {F : Type 0} ⦃fl : Float F⦄ (b : Builtins F) where
  unfoldable pub bounded_int : Dict String String → String → ℕ → ℕ → ℕ → Option ℕ
  bounded_int environ key fallback minimum maximum = do
    value ← or_parse b.int_of (pos fallback) (get key environ)
    within minimum maximum value

  abbrev pub float_within : F → F → F → Option F
  float_within minimum maximum value =
      if not (fl.lt value minimum) && not (fl.lt maximum value) then some value else none

  -- Rates lie between 0.1 and 30.
  unfoldable pub bounded_float : Dict String String → String → ℕ → Option F
  bounded_float environ key fallback = do
    value ← or_parse b.float_of (fl.lit fallback) (get key environ)
    float_within (fl.lit 10) (fl.lit 3000) value

  abbrev pub read : Dict String String → String → String → String
  read environ key fallback = or_default (get key environ) fallback

  unfoldable pub batch_for : String → ℕ → ℕ
  batch_for model_name batch_size =
      if occurs (codes "ncnn") (codes model_name) then 1 else batch_size

  unfoldable pub load_deployment_profile : Dict String String → Option (DeploymentProfile F)
  unfolding profile_key hardware_key bounded_int bounded_float batch_for
  load_deployment_profile environ = do
    key ← profile_key (b.lower (b.strip (read environ "TRAFFIC_PROFILE" "laptop")))
    let defaults = defaults_of key
    mode ← hardware_key (b.lower (b.strip (read environ "HARDWARE" "simulation")))
    port ← required_port mode (non_empty (b.strip (read environ "ESP32_PORT" "")))
    batch ← bounded_int environ "YOLO_BATCH_SIZE" defaults.batch_size 1 4
    baudrate ← bounded_int environ "ESP32_BAUDRATE" 115200 1200 4000000
    capture ← bounded_float environ "CAMERA_CAPTURE_FPS" defaults.capture_fps
    sample ← bounded_float environ "WEBRTC_SAMPLE_FPS" defaults.webrtc_sample_fps
    detector ← bounded_float environ "DETECTOR_FPS" defaults.detector_fps
    size ← bounded_int environ "YOLO_INPUT_SIZE" defaults.input_size 320 1280
    threads ← bounded_int environ "YOLO_CPU_THREADS" defaults.cpu_threads 1 16
    preview ← bounded_float environ "PREVIEW_FPS" defaults.preview_fps
    some (record {
      name = defaults.name;
      validation_status = defaults.validation_status;
      hardware_mode = mode;
      serial_port = port;
      serial_baudrate = baudrate;
      capture_fps = capture;
      webrtc_sample_fps = sample;
      detector_fps = detector;
      input_size = size;
      batch_size = batch_for (b.lower (read environ "YOLO_MODEL_NAME" "yolov8n.pt")) batch;
      cpu_threads = threads;
      preview_fps = preview;
    })
