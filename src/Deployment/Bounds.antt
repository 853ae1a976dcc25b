-- ===== src/Deployment/Bounds.antt =====
-- What every profile that config/deployment.py accepts satisfies.
use mathlib.Core.Path.{subst}
use smart_traffic_management.Common.{Option, String, arith, false, none, refl, some, ℕ, ◌≡◌, ◌≤◌}
use smart_traffic_management.Common.Dict.{Dict, get}
use smart_traffic_management.Common.Equality.{nat_eq, string_eq}
use smart_traffic_management.Common.Float.{Float, negsuc, pos, ℤ}
use smart_traffic_management.Deployment.{
  ◌>>=◌, Builtins, DeploymentProfile, HardwareMode, batch_for, bounded_float, bounded_int,
  defaults_of, esp32, float_within, hardware_key, load_deployment_profile, non_empty, or_parse,
  profile_key, read, required_port, simulated, within,
}
use smart_traffic_management.Signal.Types.{lane_id_eq_inst}

module _ {F : Type 0} ⦃fl : Float F⦄ where
  -- The rates lie between 0.1 and 30.
  abbrev pub IsRate : F → Type 0
  IsRate f = (fl.lt f (fl.lit 10) ≡ false) × (fl.lt (fl.lit 3000) f ≡ false)

pub record IsBounded {F : Type 0} ⦃fl : Float F⦄ (p : DeploymentProfile F) : Type 0 where
  pub batch : (1 ≤ p.batch_size) × (p.batch_size ≤ 4)
  pub baudrate : (1200 ≤ p.serial_baudrate) × (p.serial_baudrate ≤ 4000000)
  pub size : (320 ≤ p.input_size) × (p.input_size ≤ 1280)
  pub threads : (1 ≤ p.cpu_threads) × (p.cpu_threads ≤ 16)
  pub capture : IsRate p.capture_fps
  pub sample : IsRate p.webrtc_sample_fps
  pub detector : IsRate p.detector_fps
  pub preview : IsRate p.preview_fps
  pub port : p.hardware_mode ≡ esp32 → (s : String) × (p.serial_port ≡ some s)

abbrev Ensures {ℓ κ} : {A : Type ℓ} → (A → Type κ) → Option A → Type (ℓ ⊔ κ)
Ensures {A} P o = (a : A) → o ≡ some a → P a

Ensures-bind {ℓ κ} :
    {A : Type ℓ} {B : Type κ} (P : B → Type 0) (m : Option A) (f : A → Option B)
    → ((a : A) → m ≡ some a → Ensures P (f a))
    → Ensures P (m >>= f)
Ensures-bind P none f h b e = cc
Ensures-bind P (some a) f h b e = h a refl b e

Ensures-some {ℓ} : {A : Type ℓ} (P : A → Type 0) (a : A) → P a → Ensures P (some a)
Ensures-some P a h b e = subst P (ground arith) h

within_bounds :
    (minimum maximum : ℕ) (z : ℤ) (n : ℕ)
    → within minimum maximum z ≡ some n
    → (minimum ≤ n) × (n ≤ maximum)
within_bounds minimum maximum (pos k) n h = ground arith
within_bounds minimum maximum (negsuc k) n h = cc

required_port-some :
    (mode : HardwareMode) (o : Option String) (port : Option String)
    → required_port mode o ≡ some port
    → mode ≡ esp32
    → (s : String) × (port ≡ some s)
required_port-some simulated o port h e = cc
required_port-some esp32 none port h e = cc
required_port-some esp32 (some s) port h e = (s, ground arith)

module _ {F : Type 0} ⦃fl : Float F⦄ (b : Builtins F) (environ : Dict String String) where
  bounded_int_bounds :
      (key : String) (fallback minimum maximum n : ℕ)
      → bounded_int b environ key fallback minimum maximum ≡ some n
      → (minimum ≤ n) × (n ≤ maximum)
  unfolding bounded_int
  bounded_int_bounds key fallback minimum maximum =
      Ensures-bind (λ n. (minimum ≤ n) × (n ≤ maximum))
        (or_parse b.int_of (pos fallback) (get key environ)) (within minimum maximum)
        λ z read_z. within_bounds minimum maximum z

  bounded_float-IsRate :
      (key : String) (fallback : ℕ) (f : F)
      → bounded_float b environ key fallback ≡ some f
      → IsRate f
  unfolding bounded_float
  bounded_float-IsRate key fallback =
      Ensures-bind IsRate (or_parse b.float_of (fl.lit fallback) (get key environ))
        (float_within b (fl.lit 10) (fl.lit 3000)) λ x read_x f e. ground arith

  batch_for_bounds :
      (model : String) (n : ℕ)
      → (1 ≤ n) × (n ≤ 4)
      → (1 ≤ batch_for b model n) × (batch_for b model n ≤ 4)
  unfolding batch_for
  batch_for_bounds model n h = ground arith

  -- Whatever the environment says, a profile that is accepted has a batch of 1 to 4 frames, a baud
  -- rate of 1,200 to 4,000,000, an input size of 320 to 1280, 1 to 16 threads, rates between 0.1 and
  -- 30, and a port where it asks for the hardware.
  pub load_deployment_profile-IsBounded :
      (p : DeploymentProfile F) → load_deployment_profile b environ ≡ some p → IsBounded p
  unfolding load_deployment_profile
  load_deployment_profile-IsBounded =
      Ensures-bind IsBounded
        (profile_key (b.lower (b.strip (read b environ "TRAFFIC_PROFILE" "laptop")))) _
        λ key e0.
          Ensures-bind IsBounded
            (hardware_key (b.lower (b.strip (read b environ "HARDWARE" "simulation")))) _
            λ mode e1.
              Ensures-bind IsBounded
                (required_port mode (non_empty (b.strip (read b environ "ESP32_PORT" "")))) _
                λ port e2.
                  Ensures-bind IsBounded
                    (bounded_int b environ "YOLO_BATCH_SIZE" (defaults_of key).batch_size 1 4) _
                    λ batch e3.
                      Ensures-bind IsBounded
                        (bounded_int b environ "ESP32_BAUDRATE" 115200 1200 4000000) _
                        λ baudrate e4.
                          Ensures-bind IsBounded
                            (bounded_float b environ "CAMERA_CAPTURE_FPS"
                              (defaults_of key).capture_fps)
                            _
                            λ capture e5.
                              Ensures-bind IsBounded
                                (bounded_float b environ "WEBRTC_SAMPLE_FPS"
                                  (defaults_of key).webrtc_sample_fps)
                                _
                                λ sample e6.
                                  Ensures-bind IsBounded
                                    (bounded_float b environ "DETECTOR_FPS"
                                      (defaults_of key).detector_fps)
                                    _
                                    λ detector e7.
                                      Ensures-bind IsBounded
                                        (bounded_int b environ "YOLO_INPUT_SIZE"
                                          (defaults_of key).input_size 320 1280)
                                        _
                                        λ size e8.
                                          Ensures-bind IsBounded
                                            (bounded_int b environ "YOLO_CPU_THREADS"
                                              (defaults_of key).cpu_threads 1 16)
                                            _
                                            λ threads e9.
                                              Ensures-bind IsBounded
                                                (bounded_float b environ "PREVIEW_FPS"
                                                  (defaults_of key).preview_fps)
                                                _
                                                λ preview e10. Ensures-some IsBounded _ (record {
                                                  batch =
                                                      batch_for_bounds
                                                        (b.lower (
                                                          read b environ "YOLO_MODEL_NAME"
                                                            "yolov8n.pt"))
                                                        batch
                                                        (bounded_int_bounds "YOLO_BATCH_SIZE" _ 1 4
                                                          batch e3);
                                                  baudrate =
                                                      bounded_int_bounds "ESP32_BAUDRATE" 115200
                                                        1200 4000000 baudrate e4;
                                                  size =
                                                      bounded_int_bounds "YOLO_INPUT_SIZE" _ 320
                                                        1280 size e8;
                                                  threads =
                                                      bounded_int_bounds "YOLO_CPU_THREADS" _ 1 16
                                                        threads e9;
                                                  capture =
                                                      bounded_float-IsRate "CAMERA_CAPTURE_FPS" _
                                                        capture e5;
                                                  sample =
                                                      bounded_float-IsRate "WEBRTC_SAMPLE_FPS" _
                                                        sample e6;
                                                  detector =
                                                      bounded_float-IsRate "DETECTOR_FPS" _ detector
                                                        e7;
                                                  preview =
                                                      bounded_float-IsRate "PREVIEW_FPS" _ preview
                                                        e10;
                                                  port = required_port-some mode _ port e2;
                                                })
