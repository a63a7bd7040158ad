-- ===== src/Lib.antt =====
-- Seat surface AOI: the Python side of an inspection station for car seats. A C++ controller writes
-- frames into shared memory; the detector reads a job, checks the image quality, runs models, fuses
-- their candidates, decides OK, NG, RECHECK or ERROR, and writes the result back.
--
-- Which file models what (paths from the repository's root):
--   Types: python_detector/ipc/data_types.py, and DefectCandidate of
--     python_detector/models/spatial_utils.py.
--   Config and below: the recipe records and the lookups of python_detector/config/schema_types.py;
--     Values and Validators are python_detector/config/schema_validators.py; Sections, Stages, Cameras,
--     Models and Schema are python_detector/config/recipe_schema.py. Wellformed, Admissible and Loaded
--     prove what holds of a recipe that was loaded.
--   Protocol and below: python_detector/ipc/shm_protocol.py. Codes has the enumerations, Layout the
--     formats of struct and the texts, Bytes the memory.
--   Shm and below: python_detector/ipc/shm_client.py. Client is the state of ShmClient; Packing and
--     Publish are _pack_defect, _write_result_slot and publish_result; Frames, Reader and Jobs are
--     _make_light_frame, _read_frame_slot, _publish_frame_slot_error and wait_next_job. Written,
--     Sizes, Reading, Published, Bounds, Waiting and Release prove what holds of publishing; Within,
--     Described, Bundles, Count, Checked, Freed and Pending prove what holds of reading.
--   Fusion and below: python_detector/pipeline/fusion_engine.py.
--   Filter and below: python_detector/pipeline/defect_filter.py.
--   Rule and below: python_detector/pipeline/rule_engine.py.
--   Quality and below: python_detector/pipeline/quality_gate.py. Bundle, Robot and Frame are its parts,
--     Gate and Check put them together; Sequence, Sound and Passed prove what holds of what passes.
--   Chain: fusion, filter and rule engine together, as python_detector/pipeline/pipeline.py calls them.
--   Pipeline and below: InspectionPipeline.process of python_detector/pipeline/pipeline.py.
--   Algorithm: python_detector/algorithm.py. Detector and below: python_detector/detector_main.py.
--   Trigger and below: display_app/services/manual_trigger_client.py. Answer
--     and Order prove what is received and sent.
--   Prelude and below: lists, dictionaries, integers, sorting and texts as Python has them.
--   Tests and below: runs on small inputs, and each theorem applied to one.
--
-- How state is modelled. A shared memory is a function from addresses to bytes, and has no end: a read
-- or a write past the map is not an error here. A ShmClient is a record that each method takes and
-- returns. The wait until a deadline is a list of rounds, one for each scan of the slots: before a scan
-- the C++ side may have changed the memories in any way, and an empty list is a deadline that has
-- passed. Within one scan the C++ side is taken to be still. No bound on the number of rounds is
-- needed, and no fuel. A frame's pixels are a range of addresses, as the memoryview of the source is.
--
-- What is a parameter. Float is Python's float with its comparisons, and IsOrdered what is relied on
-- for them. Codec is UTF-8 and binascii.crc32, Packs and Unpacks are the letter f of struct, Digits is
-- int of a text of digits, Prints is str of a value that is not a text. A file of recipes stands as the
-- value that yaml.safe_load returns, with the keys of each dictionary distinct; an error is named by its
-- message, without the field that the message names.
--
-- The stages of the pipeline that compute on images are a record of functions that return or raise, and
-- so are the trace and the display; Statistics is what numpy measures of a frame, and Metric is the
-- subtraction and the absolute value of floats; what the controller does on the TCP connection is an
-- Exchange, lists of what each recv returns, which end at the deadline; an operation that only may fail returns an option.
--
-- What is not modelled: opening and closing the shared memory, the processing of images and the models
-- (numpy, OpenCV, onnxruntime), the files of the trace, the displays, the command line and the
-- configuration file of the detector, the threads that complete a trace, timings, the tools, and the C++
-- controller itself.
pub mod Prelude
pub mod Float
pub mod Protocol
pub mod Types
pub mod Config
pub mod Fusion
pub mod Filter
pub mod Quality
pub mod Shm
pub mod Rule
pub mod Chain
pub mod Pipeline
pub mod Algorithm
pub mod Detector
pub mod Trigger
mod Tests
