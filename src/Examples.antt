-- ===== src/Examples.antt =====
-- Concrete runs of the modelled code of src/common, src/validation,
-- src/vulkan and src/d3d12, at which the theorems of the
-- other files apply.
mod Bindings
mod Buffers
mod Descriptors
mod DeviceWrapper
mod Queues
mod Textures
mod Uploads
mod Validation
mod Values
mod VolatileBuffers
