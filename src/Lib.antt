-- ===== src/Lib.antt =====
-- Aquamarine, a rendering backend library of a Wayland compositor: models of its C++ code and
-- their properties.
--
-- The compositor sets the state of an output (output mode, buffer, cursor, ...) and commits it. The
-- DRM backend turns a commit into requests of the kernel: it finds a CRTC for each connector, keeps
-- the framebuffers of the planes that are shown, about to be shown and gone, and tells the
-- compositor when a buffer is free again. The buffers come out of a swapchain, which an allocator
-- fills.
--
-- Which file models what, with the names of the source:
--   Swapchain.antt, Swapchain/ - src/allocator/Swapchain.cpp: CSwapchain's reconfigure, resize,
--     fullReconfigure, next, rollback and contains.
--   Backend.antt, Backend/ - src/backend/Backend.cpp: CBackend's create and start.
--   Output.antt, Output/ - src/output/Output.cpp: the setters of COutputState and onCommit.
--   Drm.antt - the parts of SDRMConnector and CDRMOutput that the scan of connectors reads.
--   Drm/Crtcs.antt, Drm/Crtcs/ - src/backend/drm/DRM.cpp: CDRMBackend::recheckCRTCs.
--   Drm/Frames.antt, Drm/Frames/ - SDRMConnector's applyCommit, rollbackCommit, onPresent and
--     releaseFBReferences, and calculateRefresh.
--   Drm/Device.antt, Drm/Commit.antt, Drm/Commit/ - CDRMOutput::commitState and SDRMConnector::commitState, on
--     Output.antt and Drm/Frames.antt, with the part of impl/Atomic.cpp that marks a page flip.
--   Drm/Schedule.antt, Drm/Schedule/ - when an output gets its frame events: scheduleFrame,
--     frameIdle, handlePF and the destructor of CDRMOutput, with the idle events of src/backend/Backend.cpp.
--   Drm/Handles.antt, Drm/Handles/ - CDRMFB: import, submitBuffer, reimport, closeHandles and drop.
--   Drm/Scan.antt, Drm/Scan/ - CDRMBackend's scanConnectors, markRedundantTiles, recheckOutputs,
--     which goes on with recheckCRTCs, and scanLeases, and SDRMConnector's disconnect.
--   Drm/Blobs.antt, Drm/Blobs/ - src/backend/drm/impl/Atomic.cpp: apply and rollback of
--     CDRMAtomicRequest, with the property blobs.
--   Drm/Props.antt, Drm/Atomic.antt, Drm/Atomic/ - the same file: the request of a connector, from add to the commit,
--     and in Prepare.antt and Prepare/ prepareConnector and commit of CDRMAtomicImpl.
--   Drm/Legacy.antt, Drm/Legacy/ - src/backend/drm/impl/Legacy.cpp.
--   Wayland.antt, Wayland/ - src/backend/Wayland.cpp: CWaylandOutput's commit, on Swapchain.antt, its
--     frames and its cache of wl_buffers.
--   Headless.antt, Headless/ - src/backend/Headless.cpp: the frames of CHeadlessOutput and the timers.
--   Anland.antt, Anland/ - src/backend/anland: AnlandOutput.cpp's buffer slots in Store and Slots, its
--     frames, on the slots, in Frames, and the connection of AnlandBackend.cpp in Link, with the
--     fallback that a failing request calls back.
--   Buffers.antt, Buffers/ - src/buffer/Buffer.cpp and src/misc/Attachment.cpp.
--   Gbm.antt, Gbm/ - src/allocator/GBM.cpp: the choice of format and modifiers and the requests in
--     Gbm.antt, and in Gbm/Buffers.antt a buffer from CGBMAllocator::acquire to its destruction.
--   Session.antt, Session/ - src/backend/Session.cpp: CSessionDevice, the callbacks of the seat and of
--     libinput, dispatchUdevEvents with what fromGpu (src/backend/drm/DRM.cpp) adds to the devices, and
--     in Session/Tools.antt the tools of a tablet.
--   Common.antt, Common/ - Boolean tests, lists and C++ integers.
--
-- State is passed explicitly: an operation takes the state and gives the new one with its result.
-- What other libraries and the kernel do is a parameter of the model, with a state of its own where
-- it has one: the allocator of a swapchain, the fields of Drm.Commit's Device and of Drm.Handles's
-- Kernel, the answers of the kernel in Drm.Atomic and Drm.Legacy, those of gbm in Gbm and of libseat
-- and the kernel in Session, the display of Anland, and the compositor that Drm.Schedule, Headless, Wayland and Anland send their events to. Events are lists of
-- what was sent. Pointers to shared objects are numbers; a null pointer is none.
--
-- The loops are recursions on lists or on a count. Only the two loops of CSwapchain::resize have
-- fuel, the length of the vector and the length that is asked for, and each round takes one buffer
-- off or adds one, so that the fuel is never short.
--
-- The tries of the Anland backend to reach a consumer are a recursion on those that are left.
--
-- Not modelled: the renderer, EGL and the kernel; the dumb buffers; the start of the Session and the
-- events of libinput that only hand values on; the cursors and formats of the nested backends; the C client of the Anland display; locks and threads; log calls.
pub mod Common
pub mod Swapchain
pub mod Backend
pub mod Output
pub mod Drm
pub mod Buffers
pub mod Headless
pub mod Wayland
pub mod Anland
pub mod Gbm
pub mod Session
