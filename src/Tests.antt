-- ===== src/Tests.antt =====
-- Small runs of the model, and its theorems at concrete inputs.
mod ZonemapTests
mod UtilTests
mod CrcTests
mod VolumeTests
mod InodeTests
mod DataTests
mod LogTests
mod AccessTests
mod CommitTests
mod LoadingTests
mod ReplayTests
